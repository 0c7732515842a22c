-- ===== src/Tcp/Threads/Serial/Explained.antt =====
-- Handlers of `add`, `get` and `delete` on any number of threads of the pool, in whatever order
-- they call the database, do what one map does: src/quitsies/tcp/request.cpp over server.cpp.
use quitsies.Prelude.{
  ℕ, ◌≡◌, refl, sym, subst, ◌∙◌, inl, inr, List, Option, none, some, ok, err, Result,
}
use quitsies.Text.{Bytes}
use quitsies.Db.Store.{Store}
use quitsies.Tcp.Request.Types.{CommandType}
use quitsies.Tcp.Memcached.Spec.{Map}
use quitsies.Tcp.Memcached.History.{Explains}
use quitsies.Tcp.Memcached.Keeps.{IsMap}
use quitsies.Tcp.Threads.{Point, add_puts, delete_deletes, ended, first_point, one_call}
use quitsies.Tcp.Threads.Shared.{
  Shared, at, ThreadStep, begins, returns, throws, Threads, nothing_yet, then_thread, idle, Any,
}
use quitsies.Tcp.Threads.Calls.{NotSet}
use quitsies.Tcp.Threads.Exclusion.{at-cases}
use quitsies.Tcp.Threads.Serial.Present.{
  IsPresent, first_point-NoDelete, deletes-IsPresent, one_call-IsPresent,
}
use quitsies.Tcp.Threads.Absent.{add_puts-absent}
use quitsies.Tcp.Threads.Serial.{Mode, adding, Serial, took, Does, Run, at_rest, then_call}
use quitsies.Tcp.Threads.Serial.Decides.{Decided, Fits, one_call-Fits}
use quitsies.Tcp.Threads.Serial.Served.{
  at-Decided, took-other, first_point-Decided, served-NotSet, deletes-mine, ended-Decided,
  adds-mode,
}

module _ {S : Type 0} (db : Store S) (view : S → Map) (law : IsMap db view) (mode : Mode)
    (deleter : ℕ) where
  Does-NotSet :
      {v w : Shared S} (g after : Serial) (st : ThreadStep db Any v w)
      → mode ≡ adding
      → Does db mode deleter st g after
      → ThreadStep db NotSet v w
  Does-NotSet g after (begins i reply cmd key keys buffer e allowed same) m (served, is_after) =
      begins i reply cmd key keys buffer e (served-NotSet mode deleter i cmd keys m served) same
  Does-NotSet g after (returns i p t may called same) m is_after = returns i p t may called same
  Does-NotSet g after (throws i what t may called same) m is_after = throws i what t may called same

  -- Where keys are added, nobody sets.
  Run-Threads :
      (s : S) {w : Shared S} {g : Serial}
      → mode ≡ adding
      → Run db mode deleter s w g
      → Threads db NotSet (idle s) w
  Run-Threads s m at_rest = nothing_yet
  Run-Threads s m (then_call r st does) =
      then_thread (Run-Threads s m r) (Does-NotSet _ _ st m does)

  -- Each handler is as the history says, and one that is about to delete its key has it.
  abbrev AllDecided : Shared S → Serial → Type 0
  AllDecided w g = (j : ℕ) → Decided mode deleter j (w.points j) (g.decided j)

  abbrev AllPresent : Shared S → Type 0
  AllPresent w =
      (j : ℕ) (key : Bytes) → w.points j ≡ delete_deletes key → IsPresent (view w.database key)

  abbrev AllAbsent : Shared S → Type 0
  AllAbsent w =
      (j : ℕ) (key value : Bytes) → w.points j ≡ add_puts key value → view w.database key ≡ none

  begun-present :
      (v : Shared S) (i : ℕ) (cmd : CommandType) (key : Bytes) (keys : List Bytes) (buffer : Bytes)
      → AllPresent v
      → AllPresent (record v { points = at v.points i (first_point cmd key keys buffer) })
  begun-present v i cmd key keys buffer h j k e =
      elim (at-cases (λ p. p ≡ delete_deletes k) v.points i (first_point cmd key keys buffer) j e) [
        | inl (_, g) ↦ absurd (first_point-NoDelete cmd key keys buffer k g)
        | inr (_, g) ↦ h j k g
      ]

  called-present :
      (v : Shared S) (g : Serial) (i : ℕ) (p : Point) (t : S) (holder : Option ℕ)
      → one_call db (v.points i) v.database ≡ (ok p, t)
      → AllDecided v g
      → AllPresent v
      → AllPresent (record { database = t; holder = holder; points = at v.points i p })
  called-present v g i p t holder called d h j k e =
      elim (at-cases (λ q. q ≡ delete_deletes k) v.points i p j e) [
        | inl (_, mine) ↦ deletes-IsPresent db view law (v.points i) p v.database t k called mine
        | inr (other, theirs) ↦
            subst (λ r. IsPresent (view r.1 k)) called
              (one_call-IsPresent db view law (v.points i) v.database k
                (λ key f. other (
                  deletes-mine mode deleter i (v.points i) key (g.decided i) f (d i)
                  ∙ sym (deletes-mine mode deleter j (v.points j) k (g.decided j) theirs (d j))))
                (h j k theirs))
      ]

  module _ (f : Map) where
    record Explained (w : Shared S) (g : Serial) : Type 0 where
      explains : Explains f g.history (view w.database)
      all_decided : AllDecided w g
      all_present : AllPresent w

    call-Fits :
        (v : Shared S) (g : Serial) (i : ℕ) (r : Result Point × S)
        → one_call db (v.points i) v.database ≡ r
        → AllAbsent v
        → Explained v g
        → Fits db view law mode deleter f i (v.points i) g r
    call-Fits v g i r called absent h =
        subst (Fits db view law mode deleter f i (v.points i) g) called (
          one_call-Fits db view law mode deleter f i (v.points i) v.database g (h.all_decided i)
            (absent i) (h.all_present i) h.explains)

    Step-Explained :
        {v w : Shared S} {g after : Serial} (st : ThreadStep db Any v w)
        → Does db mode deleter st g after
        → AllAbsent v
        → Explained v g
        → Explained w after
    Step-Explained {v} {w} {g} {after} (begins i reply cmd key keys buffer e allowed same)
          (served, is_after) absent h =
        subst (λ x. Explained x after) (sym same)
          (subst (Explained _) (sym is_after) record {
            explains = h.explains;
            all_decided =
                at-Decided mode deleter v.points g.decided (at g.decided i none) i
                  (first_point cmd key keys buffer) h.all_decided
                  (first_point-Decided mode deleter i cmd key keys buffer _ served)
                  (λ j e. rw e refl);
            all_present = begun-present v i cmd key keys buffer h.all_present;
          })
    Step-Explained {v} {w} {g} {after} (returns i p t may called same) is_after absent h =
        let fits = call-Fits v g i (ok p, t) called absent h in
        subst (λ x. Explained x after) (sym same)
          (subst (Explained _) (sym is_after) record {
            explains = fits.0;
            all_decided =
                at-Decided mode deleter v.points g.decided (took (v.points i) p i g).decided i p
                  h.all_decided fits.1 (took-other (v.points i) p i g);
            all_present = called-present v g i p t v.holder called h.all_decided h.all_present;
          })
    Step-Explained {v} {w} {g} {after} (throws i what t may called same) is_after absent h =
        absurd (call-Fits v g i (err what, t) called absent h)

  Run-Explained :
      (s : S) {w : Shared S} {g : Serial} → Run db mode deleter s w g → Explained (view s) w g
  Run-Explained s at_rest = record {
    explains = refl;
    all_decided = λ j. refl;
    all_present = λ j k e. cc (e);
  }
  Run-Explained s (then_call {u} {w} {g} r st does) =
      let h = Run-Explained s r in
      Step-Explained (view s) st does
        (λ j key value e.
          let m =
            adds-mode mode deleter j (u.points j) key value (g.decided j) e (h.all_decided j) in
          add_puts-absent db view law s j key value (Run-Threads s m r) e)
        h

  -- Over a database that is a map, threads run handlers of `get` for one key, of `add` or of `set`
  -- but not of both, and on one thread only of `delete`, and call the database in any order. One
  -- map that begins as the database and executes the commands one after the other, each at one of
  -- its handler's own calls, gives each of the replies in the history and is what the database has;
  -- and a handler that has ended has the reply that the history has of it.
  pub Run-Explains :
      (s : S) (w : Shared S) (g : Serial) (i : ℕ) (reply : Bytes)
      → Run db mode deleter s w g
      → w.points i ≡ ended reply
      → Explains (view s) g.history (view w.database) × (g.decided i ≡ some reply)
  Run-Explains s w g i reply r e =
      let h = Run-Explained s r in
      (
        h.explains,
        ended-Decided mode deleter i (w.points i) reply (g.decided i) e (h.all_decided i),
      )
