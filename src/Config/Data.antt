-- ===== src/Config/Data.antt =====
-- `self.data` of `class Config` (common.py) as the dict that it is: DEFAULTS, the merge of `reload`,
-- the accesses, and `save`.
use remote_unlock.Base.{
  ◌≡◌, refl, ◌∙◌, Bool, true, false, Option, none, some, [], ◌∷◌, Text, Bytes, codes, Text-discrete,
  arith, if_pos, if_neg, Option-cases, inl, inr,
}
use remote_unlock.Base.Dict.{lookup}
use remote_unlock.Base.Int.{pos}
use remote_unlock.Json.{
  Json, null, bool, int, str, arr, obj, Items, nil, cons, Fields, field, end, find, put, find-put,
}
use remote_unlock.Outcome.{
  Outcome, returns, raises, type_error, value_error, key_error, os_error, ◌>>=◌,
}
use remote_unlock.Files.{File, Disk, Calls, write_private}
use remote_unlock.Files.Atomic.{Ended-returns, write_private-Ended}

-- DEFAULTS
unfoldable pub defaults : Fields
defaults = field (codes "version") (int (pos 2)) (
    field (codes "listener_port") (int (pos 8765)) (
      field (codes "challenge_ttl") (int (pos 10)) (
        field (codes "grant_ttl") (int (pos 20)) (
          field (codes "pam_wait") (int (pos 15)) (
            field (codes "pam_socket") (str (codes "/run/remote-unlock/pam.sock")) (
              field (codes "pam_allowed_uids") (arr (cons (int (pos 0)) nil)) (
                field (codes "service_user") (str (codes "remote-unlock")) (
                  field (codes "require_mtls") (bool true) (
                    field (codes "allow_any_interface") (bool false) (
                      field (codes "max_connections") (int (pos 16)) (
                        field (codes "lockout")
                          (obj (
                            field (codes "threshold") (int (pos 3)) (
                              field (codes "base_seconds") (int (pos 30))
                                (field (codes "max_seconds") (int (pos 3600)) end))))
                          (field (codes "alerts") (obj end) (
                            field (codes "audit_log") null
                              (field (codes "devices") (arr nil) end))))))))))))))

-- `data.update(raw)` for a dict
unfoldable pub update : Fields → Fields → Fields
update end data_ = data_
update (field k v raw) data_ = update raw (put k v data_)

-- `data.update(raw)` for what the file holds; `update_pairs` is what it does with a list that is not
-- empty, which it reads as pairs.
unfoldable pub update_with : (Items → Fields → Outcome Fields) → Json → Fields → Outcome Fields
unfolding update
update_with update_pairs (obj raw) data_ = returns (update raw data_)
update_with update_pairs (arr nil) data_ = returns data_
update_with update_pairs (arr (cons v items)) data_ = update_pairs (cons v items) data_
update_with update_pairs (str []) data_ = returns data_
update_with update_pairs (str (a ∷ t)) data_ = raises value_error
update_with update_pairs j data_ = raises type_error

-- `self[k]`
unfoldable pub get_item : Text → Fields → Outcome Json
get_item k data_ = elim (find k data_) [ none ↦ raises key_error | some v ↦ returns v ]

-- `self.get(k, default)`
unfoldable pub get_or : Text → Json → Fields → Json
get_or k default data_ = elim (find k data_) [ none ↦ default | some v ↦ v ]

-- `resolve`, with `Path.is_absolute` and `/`
unfoldable pub resolve : (Text → Bool) → (Text → Text → Text) → Text → Text → Text
resolve is_absolute join dir rel = elim (is_absolute rel) [ true ↦ rel | false ↦ join dir rel ]

-- `json.loads` and `json.dumps` on the bytes of a file, and the reading of pairs.
pub record Codec : Type 0 where
  pub loads : Bytes → Outcome Json
  pub dumps : Fields → Bytes
  pub update_pairs : Items → Fields → Outcome Fields

-- The data that `reload` takes from a file, if it is there.
abbrev pub load_file : Codec → Option File → Outcome Fields
load_file c none = raises os_error
load_file c (some f) = c.loads f.data_ >>= λ raw. update_with c.update_pairs raw defaults

-- `reload`, up to the modification time
unfoldable pub load : Codec → Text → Disk → Outcome Fields
unfolding update_with
load c path disk = load_file c (lookup Text-discrete path disk)

-- `save`, up to the modification time
unfoldable pub save : Codec → Calls → Text → Fields → Disk → Disk × Outcome (Unit {0})
save c calls path data_ disk = write_private calls path (c.dumps data_) disk

-- No key is listed twice.
abbrev pub DistinctKeys : Fields → Type 0
DistinctKeys end = Unit
DistinctKeys (field k v fs) = (find k fs ≡ none) × DistinctKeys fs

put-DistinctKeys : (k : Text) (v : Json) (fs : Fields) → DistinctKeys fs → DistinctKeys (put k v fs)
unfolding find put
put-DistinctKeys k v end h = (refl, tt)
put-DistinctKeys k v (field j w fs) h =
    ground (arith, put-DistinctKeys k v fs h.1, find-put j k v fs)

update-DistinctKeys : (raw fs : Fields) → DistinctKeys fs → DistinctKeys (update raw fs)
unfolding update
update-DistinctKeys end fs h = h
update-DistinctKeys (field k v raw) fs h =
    update-DistinctKeys raw (put k v fs) (put-DistinctKeys k v fs h)

-- A value or else another.
abbrev or_other : Option Json → Option Json → Option Json
or_other none w = w
or_other (some v) w = some v

-- A key of the file's dict has its value, another key has the value that it had.
pub find-update :
    (k : Text) (raw fs : Fields)
    → DistinctKeys raw
    → find k (update raw fs) ≡ or_other (find k raw) (find k fs)
unfolding update find
find-update k end fs h = refl
find-update k (field j v raw) fs h =
    find-update k raw (put j v fs) h.1 ∙ (elim (Text-discrete k j) [
      | yes q ↦
          rw (find-put k j v fs, if_pos (Text-discrete k j) q, if_pos (Text-discrete k j) q)
            (rw (q, h.0) refl)
      | no q ↦
          rw (find-put k j v fs, if_neg (Text-discrete k j) q, if_neg (Text-discrete k j) q) refl
    ])

-- Merged into the defaults, data that has all their keys reads as before.
find-update-defaults :
    (data_ : Fields)
    → DistinctKeys data_
    → ((k : Text) → find k data_ ≡ none → find k defaults ≡ none)
    → (k : Text) → find k (update data_ defaults) ≡ find k data_
find-update-defaults data_ distinct full k =
    find-update k data_ defaults distinct ∙ (elim (Option-cases (find k data_)) [
      | inl e ↦ rw (e, full k e) refl
      | inr (v, e) ↦ rw e refl
    ])

-- The settings that `load` gives read as `data_` does.
abbrev pub ReadsAs : Fields → Outcome Fields → Type 0
ReadsAs data_ (returns data') = (k : Text) → find k data' ≡ find k data_
ReadsAs data_ (raises e) = ⊥

-- What `save` has written, `reload` reads back: if JSON gives back the data that it was given, the
-- data lists no key twice and has every key of DEFAULTS, and the name of the temporary file is new,
-- then after a `save` that returns, every key reads as before it.
pub load-save :
    (c : Codec) (calls : Calls) (path : Text) (data_ : Fields) (d : Disk)
    → c.loads (c.dumps data_) ≡ returns (obj data_)
    → DistinctKeys data_
    → ((k : Text) → find k data_ ≡ none → find k defaults ≡ none)
    → ((tmp : Text) → calls.mkstemp ≡ returns tmp → lookup Text-discrete tmp d ≡ none)
    → (save c calls path data_ d).1 ≡ returns tt
    → ReadsAs data_ (load c path (save c calls path data_ d).0)
unfolding save load update_with
load-save c calls path data_ d codec distinct full new done =
    let w =
      Ended-returns calls path (c.dumps data_) d (write_private calls path (c.dumps data_) d)
        (write_private-Ended calls path (c.dumps data_) d new) done in
    rw (w.stored, codec) (find-update-defaults data_ distinct full)
