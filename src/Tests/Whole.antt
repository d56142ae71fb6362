-- ===== src/Tests/Whole.antt =====
-- The theorems on the service with all its connections and logins.
use remote_unlock.Base.{
  Text-discrete, text_eq, subst, refl, true, Text, ◌≡◌, ◌≢◌, ap, sym, some, List, [], ◌∷◌, codes,
  arith,
}
use remote_unlock.Json.{Json, obj, str, get, find}
use remote_unlock.Base.Int.{ℤ}
use remote_unlock.Outcome.{Outcome, returns, raises, value_error}
use remote_unlock.Client.{challenge_fields}
use remote_unlock.Client.EndToEnd.{honest_challenge}
use remote_unlock.Client.Whole.{Link, Cautious, unlock, unlock-Cautious}
use remote_unlock.Audit.Append.{new_log-IsIntact}
use remote_unlock.Service.State.{new_service, settings, record_event}
use remote_unlock.Service.Pam.{handle_pam, reply_line, is_allowed, pam_request, pam_user, pam_event}
use remote_unlock.Broker
use remote_unlock.PamHelper.{main}
use remote_unlock.PamHelper.Login.{unlock_then_one_login}
use remote_unlock.Backoff.{remaining}
use remote_unlock.Base.Dict.{lookup, insert, remove}
use remote_unlock.Protocol.Signature.{load_public_key, verify_sig, sign, as_der, contains, strip}
use remote_unlock.Audit.{equals_text}
use remote_unlock.Protocol.Forms.{is_id, is_nonce, hex_then_end, id_chars_then_end}
use remote_unlock.Protocol.Decimal.{show, show_nat, digits_from}
use remote_unlock.Protocol.Message.{signed_message}
use remote_unlock.Protocol.Hex.{to_hex, hex_digit, hex_value, from_hex}
use remote_unlock.Service.Challenge.{
  issue_challenge, challenge_message, drop_expired, check_response, take_nonce, judge,
}
use remote_unlock.Config.{reload_if_changed, device_by_fp, device_by_id, first_enabled}
use remote_unlock.Service.Session.{
  Frame, Piece, wants_hello, wants_response, accept, begin, locked, device_of_cert, on_hello,
  on_response, recv_json, hello_from, identify, send_challenge, result, answer, authorize,
}
use remote_unlock.Service.Replay.{accepts, hellos, responds}
use remote_unlock.Service.Connections.{System, IsWithin, between, moved, Step, Reaches}
use remote_unlock.Service.Connections.Balance.{Balanced, reachable-Balanced}
use remote_unlock.Service.Connections.Recorded.{Adds, unlocks_in, reachable-Adds}
use remote_unlock.Service.Promise.{Runs}
use remote_unlock.Service.Promise.Refines.{
  Action, connection, asks, polls, tells, promise_of, trace, run, trace-Runs,
}
use remote_unlock.Tests.Data.{
  unchanged, toy, service, phone, draw, config, with_phones, env, log, user_ann,
}

-- A phone connects, says hello and answers the challenge.
abbrev accepted : Piece
accepted =
    accept env 100 (codes "100.64.0.9") (some (1 ∷ 2 ∷ [])) unchanged (new_service env config log)

abbrev greeted : Piece
greeted =
    on_hello env draw (codes "100.64.0.9") (some phone) (returns (Frame.text (1 ∷ []))) accepted.0

abbrev answered : Piece
answered = on_response env 105 (codes "100.64.0.9") phone (returns (Frame.text [])) greeted.0

accepted_waits : accepted.2 ≡ wants_hello (some phone)
unfolding accept reload_if_changed begin locked device_of_cert device_by_fp first_enabled
    Text-discrete text_eq new_service remaining lookup
accepted_waits = refl

greeted_waits : greeted.2 ≡ wants_response phone
unfolding accept reload_if_changed begin locked device_of_cert device_by_fp first_enabled
    Text-discrete text_eq new_service remaining lookup on_hello recv_json get find hello_from
    identify device_by_id send_challenge issue_challenge challenge_message drop_expired is_id insert
    equals_text signed_message id_chars_then_end hex_then_end is_nonce to_hex hex_digit
greeted_waits = refl

phone_is_allowed : answered.1 ≡ result true ∷ []
unfolding accept reload_if_changed begin locked device_of_cert device_by_fp first_enabled
    Text-discrete text_eq new_service remaining lookup on_hello recv_json get find hello_from
    identify device_by_id send_challenge issue_challenge challenge_message drop_expired is_id insert
    equals_text signed_message id_chars_then_end hex_then_end is_nonce to_hex hex_digit on_response
    answer check_response take_nonce judge remove load_public_key verify_sig from_hex hex_value sign
    as_der contains strip authorize show show_nat digits_from remote_unlock.Audit.append
phone_is_allowed = refl

greeted_ttl : greeted.0.broker.ttl ≡ 20
unfolding accept reload_if_changed begin locked device_of_cert device_by_fp first_enabled
    Text-discrete text_eq new_service remaining lookup on_hello recv_json get find hello_from
    identify device_by_id send_challenge issue_challenge challenge_message drop_expired is_id insert
    equals_text signed_message id_chars_then_end hex_then_end is_nonce to_hex hex_digit
greeted_ttl = refl

greeted_settings : settings greeted.0 ≡ with_phones (phone ∷ [])
unfolding accept reload_if_changed begin locked device_of_cert device_by_fp first_enabled
    Text-discrete text_eq new_service remaining lookup on_hello recv_json get find hello_from
    identify device_by_id send_challenge issue_challenge challenge_message drop_expired is_id insert
    equals_text signed_message id_chars_then_end hex_then_end is_nonce to_hex hex_digit
greeted_settings = refl

ann_is_served :
    some (reply_line true)
    ≡ (handle_pam env 110 (returns (42, 0)) (returns (obj user_ann)) [] 110 answered.0).1
unfolding accept reload_if_changed begin locked device_of_cert device_by_fp first_enabled
    Text-discrete text_eq new_service remaining lookup on_hello recv_json get find hello_from
    identify device_by_id send_challenge issue_challenge challenge_message drop_expired is_id insert
    equals_text signed_message id_chars_then_end hex_then_end is_nonce to_hex hex_digit on_response
    answer check_response take_nonce judge remove load_public_key verify_sig from_hex hex_value sign
    as_der contains strip authorize show show_nat digits_from handle_pam pam_request pam_user
    Broker.consume Broker.rounds Broker.poll Broker.issue pam_event record_event
    remote_unlock.Audit.append
ann_is_served = refl

-- The login of ann, and a second one.
unlock_then_one_login_example :
    (main (codes "ann") (returns 990) 0 (returns 990) (returns tt) ((49 ∷ []) ∷ (10 ∷ []) ∷ []) ≡ 0)
    × ((handle_pam env 111
          (returns (43, 0))
          (returns (obj user_ann))
          []
          111
          (handle_pam env 110 (returns (42, 0)) (returns (obj user_ann)) [] 110 answered.0).0).1
        ≢ some (reply_line true))
unfolding get find Text-discrete text_eq
unlock_then_one_login_example =
    unlock_then_one_login env 105 (codes "100.64.0.9") phone (returns (Frame.text [])) greeted.0 110
      42 user_ann 110 (codes "ann") 990 ((49 ∷ []) ∷ (10 ∷ []) ∷ []) 111 (returns (43, 0))
      (returns (obj user_ann)) [] 111 phone_is_allowed (omega (arith, greeted_ttl))
      (ap (λ st. is_allowed 0 st.pam_allowed_uids) greeted_settings)
      (ap (λ st. str st.unlock_user) (sym greeted_settings)) (λ e. ground (arith, e))
      (λ e. ground (arith, e), (λ e. ground (arith, e), tt)) ann_is_served refl

is_within : IsWithin 8 unchanged
is_within st h =
    let same : with_phones (phone ∷ []) ≡ st = ground arith in rw (sym same) (omega arith)

abbrev start : System
start = between (new_service env config log) []

is_reached : Reaches env 8 start (moved answered [] [])
is_reached =
    let r₁ : Reaches env 8 start (moved accepted [] []) = Reaches.steps (Reaches.stays start) (
      Step.accepts 100 (codes "100.64.0.9") (some (1 ∷ 2 ∷ [])) unchanged
        (new_service env config log) [] is_within) in
    let r₂ : Reaches env 8 start (moved greeted [] []) =
      Reaches.steps
        (subst (λ p. Reaches env 8 start (between accepted.0 (p ∷ []))) accepted_waits r₁)
        (Step.hellos draw (codes "100.64.0.9") (some phone) (returns (Frame.text (1 ∷ [])))
          accepted.0 [] []) in
    Reaches.steps (subst (λ p. Reaches env 8 start (between greeted.0 (p ∷ []))) greeted_waits r₂)
      (Step.responds 105 (codes "100.64.0.9") phone (returns (Frame.text [])) greeted.0 [] [])

reachable-Balanced_example : Balanced env 8 (moved answered [] [])
reachable-Balanced_example =
    reachable-Balanced env 8 config log (moved answered [] []) (omega arith)
      (new_log-IsIntact env.hash) is_reached

reachable-Adds_example : Adds log.lines answered.0.audit.lines (unlocks_in env 8 is_reached)
reachable-Adds_example =
    reachable-Adds env 8 config log (moved answered [] []) (omega arith) (new_log-IsIntact env.hash)
      is_reached

abbrev actions : List Action
actions =
    connection (accepts 100 (codes "100.64.0.9") (some (1 ∷ 2 ∷ [])) unchanged)
    ∷ connection (hellos draw (codes "100.64.0.9") (some phone) (returns (Frame.text (1 ∷ []))))
    ∷ connection (responds 105 (codes "100.64.0.9") phone (returns (Frame.text [])))
    ∷ asks 106 (returns (42, 0)) (returns (obj user_ann))
    ∷ polls 121 106
    ∷ tells 106 42 0 (codes "ann") true
    ∷ []

trace-Runs_example :
    Runs
      (promise_of (new_service env config log))
      (trace env actions (new_service env config log))
      (promise_of (run env actions (new_service env config log)))
trace-Runs_example = trace-Runs env actions (new_service env config log)

abbrev no_int : Text → Outcome ℤ
no_int t = raises value_error

abbrev sent_challenge : Text → Outcome Json
sent_challenge raw =
    returns (obj (challenge_fields (honest_challenge env no_int draw (codes "phone1") service)))

abbrev link : Link
link = record { connect = returns tt; first = returns []; second = returns [] }

unlock-Cautious_example :
    Cautious toy no_int sent_challenge 5 7
      (codes "phone1")
      (codes "laptop")
      0
      link
      (unlock toy no_int sent_challenge 5 7 (codes "phone1") (codes "laptop") 0 link).0
unlock-Cautious_example =
    unlock-Cautious toy no_int sent_challenge 5 7 (codes "phone1") (codes "laptop") 0 link
