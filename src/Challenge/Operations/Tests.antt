-- ===== src/Challenge/Operations/Tests.antt =====
-- Runs of the challenge component, and its theorems at concrete inputs.
use hyrovi_proxy_manager.Prelude.{
  ◌≡◌, refl, Bool, true, false, Option, none, some, List, [], ◌∷◌, arith, leb,
}
use hyrovi_proxy_manager.Prelude.Int.{pos}
use hyrovi_proxy_manager.Js.Text.{Text, codes, text_eq, mem_text}
use hyrovi_proxy_manager.Js.Value.{Value, null, num, str, arr, obj, nil, cons, end, field, decimal}
use hyrovi_proxy_manager.Errors.{ok}
use hyrovi_proxy_manager.Challenge.Proof.{
  byte_zeros, leading_zero_bits, has_leading_zero_bits, solve_from,
  has_leading_zero_bits-leading_zero_bits,
}
use hyrovi_proxy_manager.Challenge.{
  Challenge, World, Env, entries, absent, array_or_empty, is_active, active_challenges, render_geo,
  commit_state,
}
use hyrovi_proxy_manager.Challenge.Commit.{AllOrNothing, commit_state-AllOrNothing}
use hyrovi_proxy_manager.Challenge.Invariant.{FileIsSound}
use hyrovi_proxy_manager.Challenge.Operations.{verify}
use hyrovi_proxy_manager.Challenge.Operations.Invariant.{
  challenges, verifies, serve, serve-FileIsSound,
}
use hyrovi_proxy_manager.Challenge.Operations.Proven.{ProvesWork, verify-ProvesWork}
use hyrovi_proxy_manager.Challenge.Operations.Verify.{calm, verify-solve_from}

abbrev lab : Env
lab = record {
  is_ip = λ t. mem_text t (codes "10.0.0.1" ∷ codes "10.0.0.2" ∷ []);
  sha256 = λ t. 0 ∷ 31 ∷ 255 ∷ [];
  random_uuid = decimal;
  random_hex = decimal;
  bypass = [];
}

abbrev first : Challenge
first = record {
  id = codes "a";
  ip = codes "10.0.0.1";
  nonce = codes "n";
  difficulty = 11;
  attempts = 2;
  max_attempts = 25;
  reason = codes "scan";
  source = codes "manual";
  decision = null;
  created_at = 0;
  expires_at = some 600_000;
}

abbrev at_rest : List Bool → World
at_rest faults = record {
  file = entries [];
  geo = some (render_geo lab 5 []);
  loaded = render_geo lab 5 [];
  faults = faults;
  draws = 0;
}

-- The reload of the new configuration fails.
commit_state-AllOrNothing_example :
    AllOrNothing lab 5 []
      (first ∷ [])
      (commit_state lab 5 [] (first ∷ []) (at_rest (false ∷ false ∷ true ∷ [])))
commit_state-AllOrNothing_example =
    commit_state-AllOrNothing lab 5 [] (first ∷ []) (at_rest (false ∷ false ∷ true ∷ []))
      (record { file = refl; geo = refl; loaded = refl }) (omega arith)

has_leading_zero_bits-leading_zero_bits_example :
    has_leading_zero_bits (0 ∷ 31 ∷ 255 ∷ []) 11 ≡ leb 11 (leading_zero_bits (0 ∷ 31 ∷ 255 ∷ []))
has_leading_zero_bits-leading_zero_bits_example =
    has_leading_zero_bits-leading_zero_bits (0 ∷ 31 ∷ 255 ∷ []) 11 (omega arith)

proof_counts : leading_zero_bits (0 ∷ 31 ∷ 255 ∷ []) ≡ 11
unfolding leading_zero_bits byte_zeros
proof_counts = refl

abbrev wanted : Value
wanted = arr (cons (obj (field (codes "ip") (str (codes " 10.0.0.2 ")) end)) nil)

serve-FileIsSound_example : FileIsSound lab (
    serve lab
      (record (at_rest (false ∷ true ∷ [])) { file = absent })
      ((5, challenges wanted)
        ∷ (6, verifies (codes "10.0.0.2") (str (codes "0")) (num (pos 3)))
        ∷ []))
unfolding array_or_empty
serve-FileIsSound_example =
    serve-FileIsSound lab (record (at_rest (false ∷ true ∷ [])) { file = absent })
      ((5, challenges wanted)
        ∷ (6, verifies (codes "10.0.0.2") (str (codes "0")) (num (pos 3)))
        ∷ [])
      (record { distinct = tt; valid = tt; few = omega arith })

verify-solve_from_example :
    (g : Option Text) × (l : Text) × (verify lab 5
        (codes "10.0.0.1")
        (str (codes "a"))
        (num (pos 0))
        (calm (entries (first ∷ [])) none [] 0)
      ≡ (ok (record { verified = true; attempts_remaining = 23 }), calm (entries []) g l 0))
unfolding active_challenges is_active array_or_empty text_eq solve_from leading_zero_bits byte_zeros
verify-solve_from_example =
    verify-solve_from lab 5 first (entries (first ∷ [])) none [] 0 0 refl (omega arith) refl

verify-ProvesWork_example :
    ProvesWork lab 5 (codes "10.0.0.1") (str (codes "a")) (num (pos 0)) (entries (first ∷ []))
verify-ProvesWork_example =
    verify-ProvesWork lab 5 (codes "10.0.0.1") (str (codes "a")) (num (pos 0))
      (calm (entries (first ∷ [])) none [] 0) verify-solve_from_example.2 refl
