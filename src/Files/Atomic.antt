-- ===== src/Files/Atomic.antt =====
-- The disk after `write_private` of common.py.
use remote_unlock.Base.{
  arith, ◌≡◌, refl, ◌∙◌, ◌≢◌, none, some, Text, Bytes, Text-discrete, if_pos, if_neg, [],
}
use remote_unlock.Base.Dict.{lookup, insert, remove, lookup-insert, lookup-remove}
use remote_unlock.Outcome.{Outcome, returns, raises, Exception, handle_split}
use remote_unlock.Files.{
  File, Disk, owner_only, others_may, check_private, Calls, rename, discard, call, write_temp,
  write_private,
}

-- Every path holds what it held before.
abbrev pub Same : Disk → Disk → Type 0
Same d d' = (p : Text) → lookup Text-discrete p d' ≡ lookup Text-discrete p d

-- Every path but the temporary file's holds what it held before.
abbrev pub SameBut : Text → Disk → Disk → Type 0
SameBut tmp d d' = (p : Text) → p ≢ tmp → lookup Text-discrete p d' ≡ lookup Text-discrete p d

-- The path holds the data, for its owner only; no other path has changed.
pub record Written (path : Text) (data_ : Bytes) (d d' : Disk) : Type 0 where
  pub stored : lookup Text-discrete path d' ≡ some (record { mode = owner_only; data_ = data_ })
  pub others : SameBut path d d'
  pub private_ : check_private path d' ≡ returns tt

-- How a call ends: it has written; or it raises and the disk is as before, unless removing the
-- temporary file fails too, which then remains.
pub data Ended (c : Calls) (path : Text) (data_ : Bytes) (d : Disk)
    : Disk × Outcome (Unit {0}) → Type 0 where
  written : {d' : Disk} → Written path data_ d d' → Ended c path data_ d (d', returns tt)
  undone : {d' : Disk} {e : Exception} → Same d d' → Ended c path data_ d (d', raises e)
  littered :
      {d' : Disk} {e : Exception} {tmp : Text}
      → c.mkstemp ≡ returns tmp
      → c.unlink ≡ raises e
      → SameBut tmp d d'
      → Ended c path data_ d (d', raises e)

-- A new file, held and removed again.
insert-remove :
    (tmp : Text) (f : File) (d : Disk)
    → lookup Text-discrete tmp d ≡ none
    → Same d (remove Text-discrete tmp (insert Text-discrete tmp f d))
insert-remove tmp f d new p = elim (Text-discrete p tmp) [
  | yes q ↦
      rw
        (
          lookup-remove Text-discrete p tmp (insert Text-discrete tmp f d),
          if_pos (Text-discrete p tmp) q,
        )
        (rw (q, new) refl)
  | no q ↦
      rw
        (
          lookup-remove Text-discrete p tmp (insert Text-discrete tmp f d),
          if_neg (Text-discrete p tmp) q,
          lookup-insert Text-discrete p tmp f d,
          if_neg (Text-discrete p tmp) q,
        )
        refl
]

insert_others : (tmp : Text) (f : File) (d : Disk) → SameBut tmp d (insert Text-discrete tmp f d)
insert_others tmp f d p ne =
    rw (lookup-insert Text-discrete p tmp f d, if_neg (Text-discrete p tmp) ne) refl

insert_here :
    (tmp : Text) (f : File) (d : Disk)
    → lookup Text-discrete tmp (insert Text-discrete tmp f d) ≡ some f
insert_here tmp f d =
    rw (lookup-insert Text-discrete tmp tmp f d, if_pos (Text-discrete tmp tmp) refl) refl

discard-Ended :
    (c : Calls) (path tmp : Text) (data_ : Bytes) (f : File) (e : Exception) (d : Disk)
    (o : Outcome (Unit {0}))
    → c.mkstemp ≡ returns tmp
    → c.unlink ≡ o
    → lookup Text-discrete tmp d ≡ none
    → Ended c path data_ d (discard (some f) o tmp e (insert Text-discrete tmp f d))
discard-Ended c path tmp data_ f e d (returns u) made un new = undone (insert-remove tmp f d new)
discard-Ended c path tmp data_ f e d (raises e') made un new =
    littered made un (insert_others tmp f d)

rename-Written :
    (path tmp : Text) (data_ : Bytes) (d : Disk)
    → lookup Text-discrete tmp d ≡ none
    → let f : File = record { mode = owner_only; data_ = data_ } in
      Written path data_ d (rename (some f) tmp path (insert Text-discrete tmp f d))
unfolding check_private others_may
rename-Written path tmp data_ d new =
    let f : File = record { mode = owner_only; data_ = data_ } in
    let d' = remove Text-discrete tmp (insert Text-discrete tmp f d) in
    record {
      stored = insert_here path f d';
      others = λ p ne. insert_others path f d' p ne ∙ insert-remove tmp f d new p;
      private_ = rw (insert_here path f d') refl;
    }

call-Ended :
    (c : Calls) (path tmp : Text) (data_ : Bytes) (o : Outcome (Unit {0})) (f : File) (d : Disk)
    (next : Unit {0} → Disk × Outcome (Unit {0}))
    → c.mkstemp ≡ returns tmp
    → lookup Text-discrete tmp d ≡ none
    → Ended c path data_ d (next tt)
    → Ended c path data_ d (call c tmp o (insert Text-discrete tmp f d) next)
call-Ended c path tmp data_ (returns u) f d next made new after = after
call-Ended c path tmp data_ (raises e) f d next made new after =
    rw (insert_here tmp f d) (discard-Ended c path tmp data_ f e d c.unlink made refl new)

write_temp-Ended :
    (c : Calls) (tmp path : Text) (data_ : Bytes) (d : Disk)
    → c.mkstemp ≡ returns tmp
    → lookup Text-discrete tmp d ≡ none
    → Ended c path data_ d (write_temp c tmp path data_ d)
unfolding write_temp
write_temp-Ended c tmp path data_ d made new =
    let f : Bytes → File = λ held. record { mode = owner_only; data_ = held } in
    call-Ended c path tmp data_ c.fchmod (f []) d _ made new (
      call-Ended c path tmp data_ c.write (f c.partly) d _ made new (
        call-Ended c path tmp data_ c.flush (f c.partly) d _ made new (
          call-Ended c path tmp data_ c.fsync (f data_) d _ made new (
            call-Ended c path tmp data_ c.replace (f data_) d _ made new
              (rw (insert_here tmp (f data_) d) (written (rename-Written path tmp data_ d new)))))))

-- `write_private` is all or nothing, if the name that mkstemp chooses is new: either it returns,
-- and then the path holds the data for its owner only, passes `check_private`, and no other path
-- has changed; or it raises, and then no path has changed at all, except that the temporary file
-- may remain if its removal fails too.
pub write_private-Ended :
    (c : Calls) (path : Text) (data_ : Bytes) (d : Disk)
    → ((tmp : Text) → c.mkstemp ≡ returns tmp → lookup Text-discrete tmp d ≡ none)
    → Ended c path data_ d (write_private c path data_ d)
unfolding write_private
write_private-Ended c path data_ d new =
    handle_split (Ended c path data_ d) c.mkdir _ _
      (λ _ _.
        handle_split (Ended c path data_ d) c.mkstemp _ _
          (λ tmp made. write_temp-Ended c tmp path data_ d made (new tmp made))
          (λ e _. undone (λ p. refl)))
      (λ e _. undone (λ p. refl))

-- A call that returns has written.
pub Ended-returns :
    (c : Calls) (path : Text) (data_ : Bytes) (d : Disk) (r : Disk × Outcome (Unit {0}))
    → Ended c path data_ d r
    → r.1 ≡ returns tt
    → Written path data_ d r.0
Ended-returns c path data_ d _ (Ended.written w) h = w
Ended-returns c path data_ d _ (Ended.undone s) h = absurd (ground arith)
Ended-returns c path data_ d _ (Ended.littered m u s) h = absurd (ground arith)
