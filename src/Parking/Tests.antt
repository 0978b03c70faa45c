-- ===== src/Parking/Tests.antt =====
-- The theorems on parking at concrete calls.
use chiya.Prelude.{true, [], ◌∷◌, false}
use chiya.Parking.{park, unpark, wake, new_thread_park}
use chiya.Parking.Tokens.{Told, watch, watch-Told}

watch-Told_example :
    Told
      (watch (park true ∷ unpark ∷ wake ∷ park false ∷ unpark ∷ []) new_thread_park []).0
      (watch (park true ∷ unpark ∷ wake ∷ park false ∷ unpark ∷ []) new_thread_park []).1
watch-Told_example = watch-Told (park true ∷ unpark ∷ wake ∷ park false ∷ unpark ∷ [])
