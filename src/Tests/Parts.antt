-- ===== src/Tests/Parts.antt =====
-- The theorems on the parts below the service.
use remote_unlock.Base.{
  ◌↔◌, false, ℕ, ◌+◌, ◌≤◌, ◌<◌, ◌≡◌, refl, true, false, none, some, List, [], ◌∷◌, Text, Bytes,
  codes, text_eq, length, arith,
}
use remote_unlock.Base.Int.{pos}
use remote_unlock.Json.{null, str, end}
use remote_unlock.Outcome.{returns, raises, attribute_error, system_exit}
use remote_unlock.Broker
use remote_unlock.Broker.{
  waits, acts, Broker, issue, poll, granted, Act, issues, polls, act, acts, Wake, woken, timed_out,
  answers, consume,
}
use remote_unlock.Broker.Safety.{LastIssue, poll-granted}
use remote_unlock.Broker.Waiting.{consume_woken}
use remote_unlock.Config.{Settings, reload_if_changed}
use remote_unlock.Config.Lookup.{reload_if_changed_takes}
use remote_unlock.Protocol.Hex.{hex_digit, hex_value, to_hex, from_hex}
use remote_unlock.Protocol.Forms.{is_nonce, is_id}
use remote_unlock.Protocol.Message.{message, signed_message}
use remote_unlock.Protocol.Injective.{signed_message-injective}
use remote_unlock.Protocol.Signature.{max_sig_hex, as_der, verify_sig, verify_sig-true}
use remote_unlock.Audit.Exact.{Linked, verify_exact}
use remote_unlock.Audit.{
  AuditLog, whole, refused, Line, mismatches, check_entry, sequence_gap, parsed, blank, genesis,
  verify_file, verify_from, open_log, pop_hash,
}
use remote_unlock.Audit.Append.{Event, append_all, new_log, open_log-append_all, refused_write_gap}
use remote_unlock.Audit.Faults.{open_log_raises}
use remote_unlock.Pairing.{has_id, disable, Issued, add_device, revoke_device}
use remote_unlock.Pairing.Registry.{add_device-revoke_device}
use remote_unlock.Tests.Data.{toy, token, phone, with_phones, config, file, hash}

poll-granted_example : (t : ℕ) × (6 < t + 20) × LastIssue t (issues 5 ∷ []) (Broker.init 20)
unfolding poll acts act issue
poll-granted_example = poll-granted 20 30 6 (issues 5 ∷ []) refl

consume_woken_example :
    let waiting = Broker.poll 16 1 (Broker.init 20) in
    (waiting.1 ≡ waits 15)
    × (waiting.0.event ≡ false)
    × ((acts (issues 5 ∷ []) waiting.0).event ≡ true)
    × ((consume 15 (woken (issues 5 ∷ []) 6 ∷ []) 1 (Broker.init 20)).1 ≡ answers true)
consume_woken_example =
    consume_woken 15 1 5 6 [] [] (Broker.init 20) (omega arith) (omega arith) (omega arith)

reload_if_changed_takes_example :
    reload_if_changed file config ≡ returns (record { settings = with_phones []; mtime = 2 })
reload_if_changed_takes_example =
    reload_if_changed_takes file config (with_phones []) (λ e. omega (arith, e)) refl

abbrev bytes_signed : Bytes
bytes_signed =
    message (codes "response") (to_hex token) (pos 1000) (codes "phone1") (codes "laptop")

signed_message-injective_example :
    (codes "response" ≡ codes "response")
    × (to_hex token ≡ to_hex token)
    × (pos 1000 ≡ pos 1000)
    × (codes "phone1" ≡ codes "phone1")
    × (codes "laptop" ≡ codes "laptop")
unfolding signed_message is_nonce is_id text_eq to_hex hex_digit
signed_message-injective_example =
    signed_message-injective (codes "response") (codes "response") (to_hex token) (to_hex token)
      (pos 1000) (pos 1000) (codes "phone1") (codes "phone1") (codes "laptop") (codes "laptop")
      bytes_signed refl refl

verify_sig-true_example :
    (t : Text) × (bs : Bytes) × (str (codes "0501") ≡ str t)
    × (length t ≤ max_sig_hex)
    × (from_hex t ≡ some bs)
    × (toy.ecdsa_verify 5 (as_der toy bs) (1 ∷ []) ≡ returns tt)
unfolding verify_sig from_hex hex_value text_eq as_der
verify_sig-true_example = verify_sig-true toy 5 (1 ∷ []) (str (codes "0501")) refl

abbrev two_events : List Event
two_events =
    record { ts = codes "12:00"; event = codes "service_start"; fields = end; write = whole }
    ∷ record { ts = codes "12:01"; event = codes "unlock_rejected"; fields = end; write = whole }
    ∷ []

open_log-append_all_example :
    open_log hash (some (append_all hash two_events (new_log hash)).lines)
    ≡ returns (record {
      lines = (append_all hash two_events (new_log hash)).lines;
      seq = 2;
      head = (append_all hash two_events (new_log hash)).head;
      tamper_error = none;
    })
open_log-append_all_example = open_log-append_all hash two_events (refl, (refl, tt))

abbrev written : List Line
written = (append_all hash two_events (new_log hash)).lines

verify_exact_example :
    (verify_file hash (some written) (some (codes "h"))
      ≡ returns (record { entries = 2; head = codes "h"; fault = none }))
    ↔ (Linked hash written 0 genesis 2 (codes "h")
        × (mismatches (some (codes "h")) (codes "h") ≡ false))
verify_exact_example = verify_exact hash (some written) (some (codes "h")) 2 (codes "h")

-- After both calls, one whose write is refused, and one more.
abbrev gapped : AuditLog
gapped =
    append_all hash
      (record {
        ts = codes "12:02";
        event = codes "unlock_authorized";
        fields = end;
        write = refused;
      }
        ∷ record { ts = codes "12:03"; event = codes "service_stop"; fields = end; write = whole }
        ∷ [])
      (append_all hash two_events (new_log hash))

refused_write_gap_example :
    open_log hash (some gapped.lines)
    ≡ returns (record {
      lines = gapped.lines;
      seq = 3;
      head = (append_all hash two_events (new_log hash)).head;
      tamper_error = some (sequence_gap 3);
    })
unfolding append_all remote_unlock.Audit.append
refused_write_gap_example =
    refused_write_gap hash two_events
      (record {
        ts = codes "12:02";
        event = codes "unlock_authorized";
        fields = end;
        write = refused;
      })
      (record { ts = codes "12:03"; event = codes "service_stop"; fields = end; write = whole })
      (refl, (refl, tt)) refl refl

open_log_raises_example : open_log hash (some (blank ∷ parsed null ∷ [])) ≡ raises attribute_error
unfolding verify_from pop_hash
open_log_raises_example =
    open_log_raises hash (blank ∷ []) [] null (record { entries = 0; head = genesis; fault = none })
      refl refl refl

abbrev issued_now : Issued
issued_now = record {
  fingerprint = codes "cd";
  expires = codes "2027-02-02";
  created = codes "2025-02-02";
}

abbrev phone_revoked : Settings
phone_revoked =
    with_phones (record phone { enabled = some false; revoked = some (codes "now") } ∷ [])

add_device-revoke_device_example :
    add_device toy (codes "phone1") (codes "BEGIN") (returns issued_now) phone_revoked
    ≡ raises system_exit
unfolding revoke_device disable has_id text_eq
add_device-revoke_device_example =
    add_device-revoke_device toy (codes "phone1") (codes "now") (codes "BEGIN") (returns issued_now)
      (with_phones (phone ∷ [])) phone_revoked refl
