-- ===== src/Lib.antt =====
-- Remote-Unlock: a phone that holds a key unlocks a Linux laptop. The phone connects over TLS to
-- the listener on the laptop, which sends a signed challenge; the phone checks it and signs the
-- answer; the listener checks the answer, counts failures, records everything in a hash-chained
-- log, and leaves a short-lived, single-use grant. A login asks the listener, through a helper
-- that PAM runs, whether there is a grant.
--
-- The files and the code they model:
--   Base, Outcome, Json: shared lists, texts, numbers and Python's dict; exceptions as values; the
--     values that json.loads returns.
--   Protocol: common.py, `signed_message`, `sign`, `verify_sig`, `load_public_key`. Protocol/Forms
--     has the two patterns, Protocol/Message the signed bytes, Protocol/Hex `hex` and `fromhex`,
--     Protocol/Signature the rest, Protocol/Injective and Protocol/Decimal the proofs.
--   Files: common.py, `get_passphrase`, `check_private`, `write_private`.
--   Config: common.py, `class Config`; Config/Data has DEFAULTS, the merge, `reload` and `save` on
--     the JSON data.
--   Notify: notify.py.
--   Audit: audit.py, `verify_file`, `AuditLog`; Audit/Report what `_main` prints.
--   Pairing: pair.py, the devices under `add_device`, `revoke_device` and `renew_server`, and the
--     checks of `init`; Pairing/Setup has the rest of `init`, `_issue_server` and `_build_cert`,
--     Pairing/Enrol the commands on the configuration file with the bundle of `add_device`,
--     Pairing/Hostname `_safe_hostname`, Pairing/Command `main`.
--   Backoff, Broker: listener.py, `Backoff` and `GrantBroker`.
--   Service: listener.py, `UnlockService`. Service/State has its state and `record`,
--     Service/Challenge `issue_challenge` and `check_response`, Service/Session `handle` and
--     `_session`, Service/Pam `handle_pam`, Service/Replay runs of many connections, with what becomes
--     of nonces and lockouts, Service/Connections the service with its open connections as a step
--     relation, Service/Promise the abstract machine that the service refines, Service/Unrecorded what
--     becomes of a grant when the record of an unlock or of a login cannot be written, Service/Start
--     `start`, Service/Stop `main` and `Runtime.close`.
--   PamHelper: pam_unlock_helper.py, and PamHelper/Login what leads from a response of the phone to
--     the exit code. Client: client_example.py, `unlock`, which Client/Whole puts together, and
--     Client/Keygen `keygen` and `make_ssl_context`.
--   Windows: windows/listener_windows.py, `UnlockService`, and Windows/Runs its calls in any order;
--     Windows/Handler and Windows/Connection have `handler` and `signal_credential_provider`,
--     Windows/Serve `main`; Windows/Setup and Windows/Certificate windows/pair_windows.py,
--     Windows/Secrets what the two programs encrypt and decrypt.
--   Tests: the theorems at concrete inputs.
--
-- State and time. An object of the source is a record, and a method is a function that takes the
-- object last and returns it changed. A coroutine is cut at its awaits: a piece runs without
-- interruption, at one reading of the clock, and what the await brings is an argument, so an
-- interleaving is a sequence of pieces. Sending to the peer and closing are no cuts: the listener
-- ignores their failures, and the `finally` of `handle` is taken in the piece before it. Times and durations are natural numbers of one unit, and
-- clocks do not go back. Exceptions are values of Outcome. There is no fuel: the loops of the
-- source run over lists, and the loop of `consume` over the list of its wake-ups.
--
-- Parameters. The packages and the standard library are arguments: ECDSA, PEM and DER, SHA-256 and
-- the certificates' fingerprints (record Crypto), json.loads, str, the wall clock (record Env), the
-- hash of an audit entry, random draws, and the outcomes of reading files and sockets.
--
-- The disk is a dict from paths to files, without directories and links; the alternatives of each
-- call of the system are arguments. A write of the audit log ends in one of the five ways of `Write`,
-- which is an argument of `append`. `Env.writes` gives the ending of each record of the service, and
-- by its law `is_whole` they all succeed; what `_session` and `handle_pam` do when the record of an
-- unlock or of a login raises is in `authorize_with` and `pam_reply_with`, for any ending.
--
-- Not modelled: records of the service that fail, other than those two; a log file that cannot be
-- read; numbers with a fraction; the bytes of TLS, of HTTP and of certificates, which are
-- the packages'; the parsers of the command lines, which are argparse's; most of what the programs
-- print; the mobile app, the credential provider and the scripts, which are in other languages.
pub mod Base
pub mod Backoff
pub mod Broker
pub mod Outcome
pub mod Json
pub mod Protocol
pub mod Files
pub mod Config
pub mod Notify
pub mod Audit
pub mod Pairing
pub mod Service
pub mod PamHelper
pub mod Client
pub mod Windows
mod Tests
