-- ===== src/Exec/Faults.antt =====
-- Which of the coming statements of a database fail: the head of the list says it of the next one, and none
-- fails when the list is used up.
use canton_middleware.Prelude.{Bool, false, List, [], ◌∷◌}

-- Whether the next statement fails.
unfoldable pub is_faulty : List Bool → Bool
is_faulty [] = false
is_faulty (b ∷ rest) = b

unfoldable pub rest_of : List Bool → List Bool
rest_of [] = []
rest_of (b ∷ rest) = rest
