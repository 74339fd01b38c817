-- ===== src/Store.antt =====
-- A JSON file under /data/nginx/hyrovi-security that holds an array, as the modules of
-- backend/internal read and replace it (readRulesUnsafe, readReviewsUnsafe, writeJsonAtomic).
-- Each call of the file system fails as `faults` says, and succeeds beyond its end.
use hyrovi_proxy_manager.Prelude.{Bool, true, false, List, [], ◌∷◌}
use hyrovi_proxy_manager.Js.Text.{Text, codes}
use hyrovi_proxy_manager.Errors.{
  io_error, configuration_error, Result, ok, err, M, pure, throw_if, lift, catch, ◌>>◌,
}
use hyrovi_proxy_manager.Hoare.{Ensures, Any, Outcome, Ensures-bind}

-- Missing, no JSON, JSON of another shape, or an array.
pub data JsonFile (A : Type 0) : Type 0 where
  missing garbled no_array : JsonFile A
  rows : List A → JsonFile A

pub record Store (A : Type 0) : Type 0 where
  pub file : JsonFile A
  pub faults : List Bool

module _ {A : Type 0} where
  unfoldable pub file_call : Text → M (Store A) (Unit {0})
  unfolding throw_if
  file_call label s = elim s.faults [
    | [] ↦ throw_if false (io_error label) s
    | b ∷ bs ↦ throw_if b (io_error label) (record s { faults = bs })
  ]

  unfoldable pub rows_of : Text → JsonFile A → Result (List A)
  rows_of message missing = ok []
  rows_of message garbled = err (configuration_error message)
  rows_of message no_array = ok []
  rows_of message (rows l) = ok l

  unfoldable pub read_rows : Text → M (Store A) (List A)
  unfolding lift
  read_rows message = do file_call (codes "readFile"); λ s. lift (rows_of message s.file) s

  -- A file written beside and moved over the old one: all of the new rows, or the old file.
  unfoldable pub write_rows : List A → M (Store A) (Unit {0})
  write_rows l = do
    file_call (codes "mkdir")
    file_call (codes "writeFile")
    file_call (codes "rename")
    λ s. pure tt (record s { file = rows l })

  -- `prepare`: an empty array in place of a file that cannot be accessed.
  is_missing : JsonFile A → Bool
  is_missing missing = true
  is_missing _ = false

  unfoldable pub prepare : M (Store A) (Unit {0})
  unfolding throw_if is_missing
  prepare = do
    file_call (codes "mkdir")
    catch
        (do
          file_call (codes "access")
          λ s. throw_if (is_missing s.file) (io_error (codes "ENOENT")) s)
        (λ _. write_rows [])

  -- A property of the rows that are on file.
  abbrev pub OnFile : (List A → Type 0) → Store A → Type 0
  OnFile P s = elim s.file [ missing ↦ Unit | garbled ↦ Unit | no_array ↦ Unit | rows l ↦ P l ]

  module _ (P : List A → Type 0) where
    file_call-OnFile : (label : Text) → Ensures (OnFile P) (Any (OnFile P)) (file_call label)
    unfolding file_call
    file_call-OnFile label = record { run = λ s i. go s.file s.faults i }
      where
        go :
            (f : JsonFile A) (bs : List Bool)
            → OnFile P (record { file = f; faults = bs })
            → Outcome
                (OnFile P)
                (Any (OnFile P))
                (file_call label (record { file = f; faults = bs }))
        go f [] i = (tt, i)
        go f (true ∷ bs) i = i
        go f (false ∷ bs) i = (tt, i)

    pub read_rows-OnFile : (message : Text) → P [] → Ensures (OnFile P) P (read_rows message)
    unfolding read_rows rows_of
    read_rows-OnFile message empty =
        Ensures-bind _ (file_call-OnFile _) (λ _ _. record { run = λ s i. go s.file s.faults i })
      where
        go :
            (f : JsonFile A) (bs : List Bool)
            → OnFile P (record { file = f; faults = bs })
            → Outcome (OnFile P) P (rows_of message f, record { file = f; faults = bs })
        go missing bs i = (empty, i)
        go garbled bs i = i
        go no_array bs i = (empty, i)
        go (rows l) bs i = (i, i)

    pub write_rows-OnFile : (l : List A) → P l → Ensures (OnFile P) (Any (OnFile P)) (write_rows l)
    unfolding write_rows
    write_rows-OnFile l p = Ensures-bind _ (file_call-OnFile _) (λ _ _.
        Ensures-bind _ (file_call-OnFile _)
          (λ _ _. Ensures-bind _ (file_call-OnFile _) (λ _ _. record { run = λ s i. (tt, p) })))
