-- ===== src/Tcp/Request/Partial.antt =====
-- A request that is not finished: `request::process` has not called the database, and what it holds
-- depends on its bytes alone.
use quitsies.Prelude.{
  ℕ, false, ◌≡◌, ◌≢◌, refl, sym, ap, ◌∙◌, [], ◌∷◌, ◌++◌, none, Option, arith, Bool-cases, inl, inr,
  subst,
}
use quitsies.Text.{Bytes}
use quitsies.Db.Store.{Store}
use quitsies.Tcp.Request.Types.{
  Request, StatusType, command, delete_key, storage_key, flags, exptime, nbytes, norep,
  retrieval_key, retrieval_keys, quitting,
}
use quitsies.Tcp.Request.Command.{is_white_space}
use quitsies.Tcp.Request.Process.{
  is_data_block, Flow, next, done, throw, chain, is_finished, on_command, on_key, on_number,
  on_norep, on_retrieval, on_space, on_data, step, run, push, settle,
}
use quitsies.Tcp.Request.Chunks.{run-cons, run-nil, run-append, Shape, run-Shape}

module _ {S : Type 0} (db : Option (Store S)) where
  -- The loop without a database, on a state with one value.
  abbrev pub Blind : Type 0
  Blind = Flow (Request × Unit {0})

  -- The first goes on only as the second does, and leaves the database as it was.
  abbrev pub Alike : S → Flow (Request × S) → Blind → Type 0
  Alike s (next w) g = (w.1 ≡ s) × (g ≡ next (w.0, tt))
  Alike s (done w) g = Unit {0}
  Alike s (throw w what) g = Unit {0}

  on_command-Alike : (r : Request) (s : S) → Alike s (on_command db r s) (on_command none r tt)
  unfolding on_command
  on_command-Alike r s = ground arith

  on_key-Alike : (st : StatusType) (r : Request) (s : S) → Alike s (on_key st r s) (on_key st r tt)
  unfolding on_key
  on_key-Alike st r s = ground arith

  on_norep-Alike : (r : Request) (s : S) → Alike s (on_norep db r s) (on_norep none r tt)
  unfolding on_norep
  on_norep-Alike r s = ground arith

  on_retrieval-Alike :
      (r : Request) (s : S) → Alike s (on_retrieval db r s) (on_retrieval none r tt)
  unfolding on_retrieval
  on_retrieval-Alike r s = ground arith

  on_data-Alike : (c : ℕ) (r : Request) (s : S) → Alike s (on_data db c r s) (on_data none c r tt)
  unfolding on_data
  on_data-Alike c r s = ground arith

  on_space-Alike :
      (st : StatusType) (r : Request) (s : S) → Alike s (on_space st db r s) (on_space st none r tt)
  unfolding on_space on_number
  on_space-Alike command r s = on_command-Alike r s
  on_space-Alike delete_key r s = on_key-Alike norep r s
  on_space-Alike storage_key r s = on_key-Alike flags r s
  on_space-Alike flags r s = ground arith
  on_space-Alike exptime r s = ground arith
  on_space-Alike nbytes r s = ground arith
  on_space-Alike norep r s = on_norep-Alike r s
  on_space-Alike retrieval_key r s = on_retrieval-Alike r s
  on_space-Alike retrieval_keys r s = on_retrieval-Alike r s
  on_space-Alike _ r s = (refl, refl)

  step-Alike : (c : ℕ) (r : Request) (s : S) → Alike s (step db c (r, s)) (step none c (r, tt))
  unfolding step
  step-Alike c r s = elim (Bool-cases (is_data_block r.status)) [
    | inl e ↦ rw e (on_data-Alike c r s)
    | inr e ↦ rw e (elim (Bool-cases (is_white_space c)) [
      | inl blank ↦ rw blank (on_space-Alike r.status r s)
      | inr char ↦ rw char (refl, refl)
    ])
  ]

  chain-Alike :
      (s : S) (f : Flow (Request × S)) (g : Blind) (k : Request × S → Flow (Request × S))
      (l : Request × Unit {0} → Blind)
      → Alike s f g
      → ((r : Request) → Alike s (k (r, s)) (l (r, tt)))
      → Alike s (chain f k) (chain g l)
  chain-Alike s (next w) g k l (same, e) rest =
      subst (λ t. Alike s (k (w.0, t)) (chain g l)) (sym same)
        (subst (λ h. Alike s (k (w.0, s)) (chain h l)) (sym e) (rest w.0))
  chain-Alike s (done w) g k l h rest = tt
  chain-Alike s (throw w what) g k l h rest = tt

  run-Alike : (cs : Bytes) (r : Request) (s : S) → Alike s (run db cs (r, s)) (run none cs (r, tt))
  run-Alike [] r s = unfold run in (refl, refl)
  run-Alike (c ∷ cs) r s =
      rw (run-cons db c cs (r, s), run-cons none c cs (r, tt))
        (chain-Alike s (step db c (r, s)) (step none c (r, tt)) (run db cs) (run none cs)
          (step-Alike c r s) (λ q. run-Alike cs q s))

chain-next :
    {A : Type 0} (f : Flow A) (k : A → Flow A) (v : A)
    → chain f k ≡ next v
    → (w : A) × (f ≡ next w) × (k w ≡ next v)
chain-next (next w) k v e = (w, refl, e)
chain-next (done w) k v e = cc (e)
chain-next (throw w what) k v e = cc (e)

-- The request behind bytes that do not end it.
abbrev pub begun : Request → Bytes → Request
begun r a = (settle (run none a (r, tt))).0

module _ {S : Type 0} (db : Option (Store S)) where
  Alike-next :
      (s : S) (f : Flow (Request × S)) (g : Flow (Request × Unit {0})) (w : Request × S)
      → Alike db s f g
      → f ≡ next w
      → w ≡ ((settle g).0, s)
  Alike-next s f g w h e =
      let (same, blind) = subst (λ x. Alike db s x g) e h in
      λ i. (ap (λ x. (settle x).0) (sym blind) i, same i)

  -- Where bytes do not end a request, a beginning of them does not, and it leaves the database.
  pub run-prefix :
      (a b : Bytes) (r q : Request) (s t : S)
      → run db (a ++ b) (r, s) ≡ next (q, t)
      → (run db a (r, s) ≡ next (begun r a, s)) × (run db b (begun r a, s) ≡ next (q, t))
  run-prefix a b r q s t e =
      let (w, first, second) =
        chain-next (run db a (r, s)) (run db b) (q, t) (sym (run-append db a b (r, s)) ∙ e) in
      let same = Alike-next s (run db a (r, s)) (run none a (r, tt)) w (run-Alike db a r s) first in
      (first ∙ ap next same, ap (run db b) (sym same) ∙ second)

  step-quitting :
      (c : ℕ) (r : Request) (s : S)
      → r.status ≡ quitting
      → (q : Request) × (step db c (r, s) ≡ next (q, s)) × (q.status ≡ quitting)
  unfolding step on_space
  step-quitting c r s e = elim (Bool-cases (is_white_space c)) [
    | inl blank ↦ (r, rw (e, blank) refl, e)
    | inr char ↦ (push r c, rw (e, char) refl, e)
  ]

  -- A request that quits never does anything else.
  run-quitting :
      (cs : Bytes) (r : Request) (s : S) (w : Request × S)
      → r.status ≡ quitting
      → run db cs (r, s) ≡ next w
      → w.0.status ≡ quitting
  run-quitting [] r s w e f =
      subst (λ v. v.0.status ≡ quitting) (Flow-next (sym (run-nil db (r, s)) ∙ f)) e
    where
      Flow-next : {u v : Request × S} → next u ≡ next v → u ≡ v
      Flow-next h = cc (h)
  run-quitting (c ∷ cs) r s w e f =
      let (q, stepped, still) = step-quitting c r s e in
      run-quitting cs q s w still
        (sym (run-cons db c cs (r, s) ∙ ap (λ x. chain x (run db cs)) stepped) ∙ f)

  -- Bytes that neither end a request nor make it quit.
  abbrev pub Waiting : Request → Type 0
  Waiting r = (is_finished r.status ≡ false) × (r.status ≢ quitting)

  pub begun-Waiting :
      (a b : Bytes) (r q : Request) (s t : S)
      → is_finished r.status ≡ false
      → run db (a ++ b) (r, s) ≡ next (q, t)
      → q.status ≢ quitting
      → Waiting (begun r a)
  begun-Waiting a b r q s t u e n =
      let (first, second) = run-prefix a b r q s t e in
      (
        (subst (Shape db r.max_bytes) first (run-Shape db a (r, s) u)).0,
        λ k. n (run-quitting b (begun r a) s (q, t) k second),
      )
