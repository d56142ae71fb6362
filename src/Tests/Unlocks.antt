-- ===== src/Tests/Unlocks.antt =====
-- The theorems on the service, the login helper and the client.
use remote_unlock.Base.{
  Text-discrete, ℕ, suc, ◌+◌, ◌≤◌, ◌≡◌, refl, ◌≢◌, true, some, List, [], ◌∷◌, Text, codes, arith,
}
use remote_unlock.Base.Int.{ℤ, pos}
use remote_unlock.Json.{obj, get, find}
use remote_unlock.Outcome.{Outcome, returns}
use remote_unlock.Broker
use remote_unlock.Broker.{Wake}
use remote_unlock.Broker.Safety.{held}
use remote_unlock.Broker.Waiting.{issued_over}
use remote_unlock.Protocol.Hex.{to_hex}
use remote_unlock.Service.State.{Service, settings, new_service}
use remote_unlock.Service.Session.{Frame, on_response}
use remote_unlock.Service.Session.Grants.{Judged, on_response_grants}
use remote_unlock.Service.Replay.{Event, hellos, responds, run, spent, drawn_in}
use remote_unlock.Service.Replay.Limited.{remaining-run-max}
use remote_unlock.Service.Replay.Spared.{OthersOnly, OtherThan, others_lock_nothing}
use remote_unlock.Service.Replay.Spent.{spent_from_start}
use remote_unlock.Backoff.{remaining}
use remote_unlock.Config.{Device}
use remote_unlock.Service.Pam.{handle_pam, reply_line}
use remote_unlock.Service.Pam.Answers.{Admitted, handle_pam-true, handle_pam_serves}
use remote_unlock.PamHelper.{main}
use remote_unlock.PamHelper.Served.{Served, main_zero, main_reads_reply}
use remote_unlock.Tests.Data.{token, draw, phone, config, env, log, service, user_ann}

on_response_grants_example :
    Judged env 105
      (returns (Frame.text []))
      service
      phone
      (on_response env 105 (codes "100.64.0.9") phone (returns (Frame.text [])) service)
on_response_grants_example =
    on_response_grants env 105 (codes "100.64.0.9") phone (returns (Frame.text [])) service

abbrev history : List Event
history =
    hellos draw (codes "100.64.0.9") (some phone) (returns (Frame.text (1 ∷ [])))
    ∷ responds 105 (codes "100.64.0.9") phone (returns (Frame.text []))
    ∷ responds 106 (codes "100.64.0.9") phone (returns (Frame.text []))
    ∷ []

spent_from_start_example :
    spent env (to_hex token) history (new_service env config log)
    ≤ drawn_in env (to_hex token) history
spent_from_start_example = spent_from_start env (to_hex token) history config log

remaining-run-max_example :
    let s = run env history (new_service env config log) in
    (remaining 107 (codes "phone1") s.ip_backoff ≤ config.settings.lockout.max_seconds)
    × (remaining 107 (codes "phone1") s.dev_backoff ≤ config.settings.lockout.max_seconds)
remaining-run-max_example =
    remaining-run-max env history config log 107 (codes "phone1")
      (omega arith, (omega arith, (omega arith, tt))) (omega arith)

abbrev tablet : Device
tablet = record phone { id = codes "tablet" }

-- The tablet fails, and a peer under the certificate of the phone says a bad hello.
abbrev failures : List Event
failures =
    hellos draw (codes "100.64.0.9") (some tablet) (returns (Frame.text (1 ∷ [])))
    ∷ responds 105 (codes "100.64.0.9") tablet (returns (Frame.text []))
    ∷ hellos draw (codes "100.64.0.9") (some phone) (returns (Frame.text []))
    ∷ responds 106 (codes "100.64.0.9") tablet (returns (Frame.text []))
    ∷ []

others_lock_nothing_example :
    remaining 106 (codes "phone1") (run env failures (new_service env config log)).dev_backoff ≡ 0
unfolding OthersOnly OtherThan
others_lock_nothing_example =
    others_lock_nothing env (codes "phone1") 106 failures config log (
      tt,
      ((λ e. ground (arith, e), omega arith), (tt, ((λ e. ground (arith, e), omega arith), tt))),
    )

abbrev granted_service : Service
granted_service = record service { broker = record { ttl = 20; expires = 120; event = true } }

ann_is_told_one :
    (handle_pam env 110 (returns (42, 0)) (returns (obj user_ann)) [] 110 granted_service).1
    ≡ some (reply_line true)
unfolding new_service get find Text-discrete
ann_is_told_one =
    handle_pam_serves env 110 42 0 user_ann [] 110 granted_service refl refl (omega arith)

handle_pam-true_example :
    Admitted env (returns (42, 0)) (returns (obj user_ann)) granted_service
    × (suc (
          held
            (handle_pam env 110
              (returns (42, 0))
              (returns (obj user_ann))
              []
              110
              granted_service).0.broker)
        ≤ held granted_service.broker + issued_over [])
handle_pam-true_example =
    handle_pam-true env 110 (returns (42, 0)) (returns (obj user_ann)) [] 110 granted_service
      ann_is_told_one

main_reads_reply_example :
    main (codes "ann") (returns 990) 0 (returns 990) (returns tt) ((49 ∷ []) ∷ (10 ∷ []) ∷ []) ≡ 0
main_reads_reply_example =
    main_reads_reply (codes "ann") 990 true ((49 ∷ []) ∷ (10 ∷ []) ∷ []) (λ e. ground arith)
      (λ e. ground arith, (λ e. ground arith, tt)) refl

main_zero_example :
    (expected_uid : ℕ) × (◌≡◌ {A = Outcome ℕ} (returns 990) (returns expected_uid))
    × (◌≡◌ {A = ℕ} 0 0)
    × (codes "ann" ≢ [])
    × Served expected_uid (returns 990) ((49 ∷ []) ∷ (10 ∷ []) ∷ [])
main_zero_example =
    main_zero (codes "ann") (returns 990) 0 (returns 990) (returns tt) ((49 ∷ []) ∷ (10 ∷ []) ∷ [])
      main_reads_reply_example

abbrev int_of : Text → Outcome ℤ
int_of t = returns (pos 0)
