-- ===== src/Tcp/Memcached/History.antt =====
-- What several clients of the protocol were told, against the map of the specification.
use quitsies.Prelude.{ℕ, ◌≡◌, refl, sym, subst, List, [], ◌∷◌, ◌++◌}
use quitsies.Text.{Bytes}
use quitsies.Tcp.Memcached.Spec.{Op, Map, apply, reply_to}

-- A command that was finished, and what its handler wrote.
pub record Exchange : Type 0 where
  pub client : ℕ
  pub op : Op
  pub reply : List Bytes

-- One map executed the commands in this order, beginning with the first map and ending with the
-- second, and gave these replies.
abbrev pub Explains : Map → List Exchange → Map → Type 0
Explains f [] g = f ≡ g
Explains f (exchange ∷ history) g =
    (exchange.reply ≡ reply_to exchange.op (apply exchange.op f).1)
    × Explains (apply exchange.op f).0 history g

pub Explains-append :
    (f g : Map) (history : List Exchange) (k : ℕ) (op : Op) (out : List Bytes)
    → Explains f history g
    → out ≡ reply_to op (apply op g).1
    → Explains f (history ++ record { client = k; op = op; reply = out } ∷ []) (apply op g).0
Explains-append f g [] k op out h e =
    subst (λ m. (out ≡ reply_to op (apply op m).1) × ((apply op m).0 ≡ (apply op g).0)) (sym h)
      (e, refl)
Explains-append f g (exchange ∷ history) k op out h e =
    (h.0, Explains-append (apply exchange.op f).0 g history k op out h.1 e)
