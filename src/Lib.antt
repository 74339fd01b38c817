-- ===== src/Lib.antt =====
-- HYROVI Proxy Manager: a model of the backend's own logic.
--
-- Program. The backend (backend/) keeps users, their passwords and their access tokens in a database
-- (backend/models), and the state of HYROVI Sec (challenges, trusted devices, rule reviews) in JSON
-- files under /data/nginx/hyrovi-security. A browser or a reporting device gets in by one of three
-- ways, which are modelled end to end: the proof of work of a challenged address, the signature of a
-- trusted device, and the login of a user with its second factor. The modules of HYROVI Sec that keep
-- files queue the operations that change them (`withMutation`, `withSecurityConfigMutation`), so there
-- each operation is a function of the state that the one before left, and lists of requests are served
-- by `serve`, `serve_calls` or `step`. The login and the second factor (token.js and 2fa.js) have no
-- such queue and no transaction: a call of theirs is modelled as if no other ran at the same time, and
-- what overlapping calls do to one account is not modelled.
--
-- Files.
--   Prelude, Prelude/*      shared names: tests on numbers, lists, whole numbers with a sign
--   Js/Text, Js/Texts, Js/Value
--                           JavaScript texts (UTF-16 code units) and JSON values, with the coercions
--                           and String methods that the code calls
--   Errors                  backend/lib/error.js, and stateful calls that may throw
--   Hoare                   what such calls ensure on every way out, and what they yield on return
--   Store                   a JSON file that holds an array: read, replaced, prepared
--   Challenge               backend/internal/security_challenge.js: state, geo file, commit, purge
--   Challenge/Proof         the proof of work: leadingZeroBits, the page's test, the client's search
--                           (clients/hyrovi-sec-challenge-node.mjs)
--   Challenge/Operations    challengeIps, removeChallenge, getChallengeForIp, verify
--   Devices                 backend/internal/security_devices.js: the two files and the normalisers
--   Devices/Registry        registerDevice, revokeDevice, resetSequence, prepare, listDevices
--   Devices/Protocol        backend/internal/security_device_protocol.js: the message that is signed
--   Devices/Requests        verifySignedRequest: headers, device, app, signature, replay counter
--   Devices/Calls           the queue of signed requests, registrations, revocations and resets
--   Reviews                 backend/internal/security_rule_reviews.js
--   Account                 the rows of backend/models/user.js and auth.js, and the queries on them
--   Account/TwoFactor       backend/internal/2fa.js
--   Account/Token           backend/internal/token.js, backend/models/token.js, parseDatePeriod of
--                           backend/lib/helpers.js, and init of backend/lib/access.js
--   Security                backend/internal/security.js, the core of HYROVI Sec:
--   Security/Targets        addresses, networks, trusted sources
--   Security/Rules          protection rules: normalised, resolved, validated
--   Security/Endpoints      normalizeEndpointPathPrefix, normalizeEndpointRules
--   Security/Policy         normalizePolicy and what it calls
--   Security/Effective      the policy of a host, of its group, and with a rule for a path
--   Security/HostContext    createHostPolicyContext: the policy in force for a host and a path
--   Security/HostContext/Entry
--                           hostPolicyEntry and renderHostProtectionConfig
--   Security/Events         the events that are judged, their identity
--   Security/Events/Memory  rememberEvent, rememberArchivedEvent
--   Security/Events/Window  the counters of enrichEvents over the last 60 seconds
--   Security/Events/Enrich  enrichEvents: what these counts add to the risk of a request
--   Security/Autopilot      protectionRuleForEvent, autopilotDecisionForEvent, the candidates
--   Security/Responses      the rows of blocks and rate limits
--   Security/Enforcement    the files of blocks and rate limits, the text for Nginx, commit and purge
--   Security/Enforcement/Operations
--                           addBlockUnsafe, addRateLimitUnsafe, unblockIp, unrateLimitIp
--   Security/Escalation     createEscalationState, pruneEscalationStates, registerEscalationStrike
--   Security/Monitor        the round of monitorThreats: its variables and what it may queue
--   Security/Monitor/Loop   the loop of monitorThreats over new requests
--   Hosts                   backend/internal/host.js: SSL fields, hostnames taken, hosts by domain
-- The files below a component hold its theorems; its file Tests holds runs at concrete inputs.
--
-- State and faults. A call of the file system, of Nginx or of the database may fail: a world carries
-- a list of Booleans, one for each such call to come, and calls beyond its end succeed. What a call
-- changed before it throws stays changed.
--
-- Parameters. The code of packages and of Node is an argument: digests, keys, signatures and random
-- numbers (Challenge.Env, Devices.Crypto), bcrypt, otplib, jsonwebtoken and moment (Account.Env),
-- the match of a database on a text (Hosts), and node:net with its
-- BlockList (Security.Targets.Net).
-- Where a theorem relies on one of them, it has a hypothesis that says so.
--
-- Times. A text of an instant stands for its milliseconds. In the states of escalation null, a text
-- that is no time and an instant are told apart, since `new Date(null)` is the epoch.
--
-- Bounds. Numbers of a request body are whole numbers; loops run on lists, and the search for a
-- counter on a fuel that its theorem names. The digits of a number are written with the number itself
-- as fuel, which is enough, since each round divides by ten.
--
-- Not modelled. The four kinds of hosts beyond what they share, certificates, access lists, Nginx
-- templates, the control plane, the reading of logs and archives, the score of a request
-- alone (baseSignals) and the dashboards of the security core (backend/internal), the object permissions of
-- backend/lib/access.js, HTTP routes, migrations, and the frontend.
pub mod Prelude
pub mod Js
pub mod Errors
pub mod Hoare
pub mod Challenge
pub mod Devices
pub mod Account
pub mod Hosts
pub mod Security
pub mod Store
pub mod Reviews
