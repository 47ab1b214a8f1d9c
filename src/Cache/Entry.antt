-- ===== src/Cache/Entry.antt =====
-- src/cache/cache.h, `Cache::Entry`: the bytes of one response, and who uses it.
use spx.Prelude.{ℕ, Bool, true, false, List, [], ◌++◌, length}
use spx.Prelude.Words.{int_inc, int_dec}

-- `in_use` is the 32-bit pattern of the counter.
pub record Entry : Type 0 where
  pub buffer : List ℕ
  pub completed : Bool
  pub in_use : ℕ

abbrev pub new_entry : Entry
new_entry = record { buffer = []; completed = false; in_use = 1 }

abbrev pub size : Entry → ℕ
size e = length e.buffer

abbrev pub append_bytes : List ℕ → Entry → Entry
append_bytes buf e = record e { buffer = e.buffer ++ buf }

abbrev pub complete : Entry → Entry
complete e = record e { completed = true }

abbrev pub increment_use : Entry → Entry
increment_use e = record e { in_use = int_inc e.in_use }

abbrev pub decrement_use : Entry → Entry
decrement_use e = record e { in_use = int_dec e.in_use }
