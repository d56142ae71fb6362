-- ===== src/Json.antt =====
-- The values that `json.loads` returns. Numbers are Python ints; a number with a fraction or an
-- exponent is not modelled. An object keeps its keys in their order.
use remote_unlock.Base.{
  ◌≡◌, refl, Bool, ite, Option, none, some, Text, Text-discrete, ℕ_discrete, arith,
}
use remote_unlock.Base.Int.{ℤ}

mutual
  pub data Json : Type 0 where
    null : Json
    bool : Bool → Json
    int : ℤ → Json
    str : Text → Json
    arr : Items → Json
    obj : Fields → Json

  pub data Items : Type 0 where
    nil : Items
    cons : Json → Items → Items

  pub data Fields : Type 0 where
    end : Fields
    field : Text → Json → Fields → Fields

pub Fields-discrete : Discrete Fields
Fields-discrete = hlevel (ℕ_discrete)

-- `k in d`, with the value
unfoldable pub find : Text → Fields → Option Json
find k end = none
find k (field j v fs) = ite (Text-discrete k j) (some v) (find k fs)

-- `d.get(k)`: a missing key is None.
abbrev pub or_null : Option Json → Json
or_null none = null
or_null (some v) = v

unfoldable pub get : Text → Fields → Json
unfolding find
get k fs = or_null (find k fs)

-- `del d[k]`
unfoldable pub without : Text → Fields → Fields
without k end = end
without k (field j v fs) = ite (Text-discrete k j) (without k fs) (field j v (without k fs))

-- `d[k] = v`
unfoldable pub put : Text → Json → Fields → Fields
put k v end = field k v end
put k v (field j w fs) = ite (Text-discrete k j) (field k v fs) (field j w (put k v fs))

pub find-put :
    (j k : Text) (v : Json) (fs : Fields)
    → find j (put k v fs) ≡ ite (Text-discrete j k) (some v) (find j fs)
unfolding find put
find-put j k v end = refl
find-put j k v (field i w fs) = ground (arith, find-put j k v fs)

-- A new key that is taken out again leaves the object as it was.
pub without-put :
    (k : Text) (v : Json) (fs : Fields) → find k fs ≡ none → without k (put k v fs) ≡ fs
unfolding find put without
without-put k v end h = ground arith
without-put k v (field i w fs) h = ground (arith, without-put k v fs)
