-- ===== src/Allocator/Tests.antt =====
-- An allocator whose cache has two places.

use utility_engine_old.Base.{◌≡◌, refl, List, [], ◌∷◌, ltb→lt}
use utility_engine_old.Allocator.Stack.{serve_stack, Same, serve-Refines}
use utility_engine_old.Allocator.{create, malloc, free, Request, serve, ask, give_back}

-- Three chunks are made and given back, the last of them to the heap, and one is asked for again.
abbrev requests : List Request
requests =
    ask 11 4 ∷ ask 12 4 ∷ ask 13 8 ∷ give_back 12 ∷ give_back 13 ∷ give_back 11 ∷ ask 14 16 ∷ []

served : (serve 2 requests (create 2 (λ i. 0))).0 ≡ 11 ∷ 12 ∷ 13 ∷ 13 ∷ []
unfolding serve create malloc free
served = refl

serve-Refines_example :
    Same 2 (serve 2 requests (create 2 (λ i. 0))) (serve_stack 2 requests ([], []))
serve-Refines_example =
    serve-Refines 2 (λ i. 0) requests (ltb→lt 0 12 refl, (ltb→lt 0 13 refl, (ltb→lt 0 11 refl, tt)))
