-- ===== src/Tests/App.antt =====
-- src/app at a concrete queue.
use zet.Prelude.{◌+◌, ◌≤◌, ◌<◌, ◌≡◌, ◌⊎◌, true, false, [], ◌∷◌, ◌++◌, arith, drop}
use zet.App.ByteQueue.{ByteQueue, queue_size, queue_front, append_limited, consume}
use zet.App.ByteQueue.Laws.{IsValid, queue_front-consume, queue_front-append_limited}

-- Two of five bytes have been taken.
abbrev waiting : ByteQueue
waiting = record { limit = 8; bytes = 1 ∷ 2 ∷ 3 ∷ 4 ∷ 5 ∷ []; head = 2 }

waiting-IsValid : IsValid waiting
waiting-IsValid = omega arith

queue_front-consume_example :
    (queue_front (consume waiting 1) ≡ drop 1 (queue_front waiting)) × IsValid (consume waiting 1)
queue_front-consume_example = queue_front-consume waiting 1 waiting-IsValid

queue_front-append_limited_example :
    IsValid (append_limited waiting (6 ∷ 7 ∷ [])).0
    × (((queue_size waiting + 2 ≤ 8)
          × ((append_limited waiting (6 ∷ 7 ∷ [])).1 ≡ true)
          × (queue_front (append_limited waiting (6 ∷ 7 ∷ [])).0
              ≡ queue_front waiting ++ (6 ∷ 7 ∷ [])))
        ⊎ ((8 < queue_size waiting + 2)
            × ((append_limited waiting (6 ∷ 7 ∷ [])).1 ≡ false)
            × ((append_limited waiting (6 ∷ 7 ∷ [])).0 ≡ waiting)))
queue_front-append_limited_example = queue_front-append_limited waiting (6 ∷ 7 ∷ []) waiting-IsValid
