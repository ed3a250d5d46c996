-- ===== src/Tests/Locks.antt =====
-- The theorem on the lock, applied to a Redis in memory.
use booking_platform_claude.Prelude.{◌≡◌, refl, none, inl, [], arith}
use booking_platform_claude.RedisLock.{acquire}
use booking_platform_claude.RedisLock.Memory.{memory_redis, Entries}
use booking_platform_claude.RedisLock.Steps.{Holder, LockState, begins, goes, asks, after_acquire}
use booking_platform_claude.RedisLock.Exclusive.{Reachable-one_holder}

abbrev nothing_set : Entries
nothing_set key = none

abbrev start : LockState memory_redis
start = record { clock = 1000; store = nothing_set; holders = [] }

-- The key 5 is taken for ten seconds, then asked for again, in vain.
abbrev taken : LockState memory_redis
taken = after_acquire memory_redis 5 70 10000 start

abbrev asked_again : LockState memory_redis
asked_again = after_acquire memory_redis 5 71 10000 taken

abbrev holder : Holder
holder = record { key = 5; token = 70; deadline = 11000 }

Reachable-one_holder_example : holder ≡ holder
unfolding acquire
Reachable-one_holder_example =
    Reachable-one_holder memory_redis asked_again holder holder
      (goes taken asked_again
        (goes start taken (begins 1000 nothing_set) (asks start 5 70 10000 tt))
        (asks taken 5 71 10000 (refl, tt)))
      (inl refl) (inl refl) refl (ground arith) (ground arith)
