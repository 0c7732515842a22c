-- ===== src/Tcp/Memcached/Tests.antt =====
-- The refinement at concrete commands.
use quitsies.Prelude.{true, false, ◌≡◌, refl, List, [], ◌∷◌, some, arith}
use quitsies.Text.{codes}
use quitsies.Db.Memory.{Memory, memory}
use quitsies.Tcp.Request.Types.{init, reset, no_command}
use quitsies.Tcp.Request.Words.{name}
use quitsies.Tcp.Request.Command.{is_white_space}
use quitsies.Tcp.Request.Process.{process}
use quitsies.Tcp.Memcached.Spec.{Op, set_op, add_op, get_op, delete_op, request_of, apply}
use quitsies.Tcp.Memcached.Reference.{view, memory-IsMap}
use quitsies.Tcp.Memcached.Refinement.{Refines, session, process-Refines}

abbrev blank : Memory
blank = record { items = []; calls = [] }

abbrev ops : List Op
ops =
    set_op (codes "k") 0 0 true (codes "v")
    ∷ add_op (codes "k") 0 0 false (codes "w")
    ∷ get_op (codes "k" ∷ [])
    ∷ delete_op (codes "k") false
    ∷ []

process-Refines_example :
    Refines memory view memory-IsMap
      (add_op (codes "k") 0 0 false (codes "w"))
      (process
        (some memory)
        (request_of (add_op (codes "k") 0 0 false (codes "w")))
        (init no_command 0, blank))
      (apply (add_op (codes "k") 0 0 false (codes "w")) (view blank))
unfolding is_white_space
process-Refines_example =
    process-Refines memory view memory-IsMap (add_op (codes "k") 0 0 false (codes "w")) no_command
      blank (((refl, tt), λ e. cc), omega arith, omega arith, omega arith)

session_text :
    session memory view memory-IsMap ops (init no_command 0, blank)
    ≡ codes "NOT_STORED\r\n" ∷ codes "VALUE k 0 1\r\nv\r\nEND\r\n" ∷ codes "DELETED\r\n" ∷ []
unfolding session process init reset memory name
session_text = refl
