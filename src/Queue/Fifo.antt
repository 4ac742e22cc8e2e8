-- ===== src/Queue/Fifo.antt =====
-- What a client of the queue may rely on: a FIFO of at most `size` items, oldest first.
use fk_prof.Prelude.{Bool, true, false, List, [], ◌∷◌, ◌++◌, length, ◌==◌, if◌then◌else◌}
use fk_prof.Queue.{Item, size, Popped, nothing, delivered}

unfoldable pub offer : Item → List Item → Bool × List Item
offer x q = if length q == size then (false, q) else (true, q ++ (x ∷ []))

unfoldable pub poll : List Item → Popped × List Item
poll [] = (nothing, [])
poll (x ∷ q) = (delivered x, q)
