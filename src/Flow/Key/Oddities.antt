-- ===== src/Flow/Key/Oddities.antt =====
-- Where the comparison of flow keys does not look at all of a key.
use go_odp.Prelude.{ℕ, ◌≡◌, refl, List, true, false, Option, none, bytes_equal_self, ==_self}
use go_odp.Flow.Blob.{bytes_of}
use go_odp.Flow.Key.{unknown, unknown_equals, equals}

-- Equals of UnknownFlowKey is not symmetric: an ignored key equals the exact key with its bytes, and
-- the exact key does not equal the ignored one.
pub equals-unknown_asymmetric :
    (typ : ℕ) (key : Option (List ℕ))
    → (equals
          (unknown (record { typ = typ; key = key; mask = none; exact = false }))
          (unknown (record { typ = typ; key = key; mask = none; exact = true }))
        ≡ true)
      × (equals
            (unknown (record { typ = typ; key = key; mask = none; exact = true }))
            (unknown (record { typ = typ; key = key; mask = none; exact = false }))
          ≡ false)
unfolding equals unknown_equals
equals-unknown_asymmetric typ key = rw (==_self typ, bytes_equal_self (bytes_of key)) (refl, refl)
