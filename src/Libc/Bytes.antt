-- ===== src/Libc/Bytes.antt =====
-- The byte-addressed memory that the functions of libc/string work on.
use cho_os.Prelude.{zero, suc, ◌+◌, List, [], ◌∷◌, ℕ, ◌%◌, ◌^◌, ◌==◌, if◌then◌else◌}

-- What each address holds. A byte is a number, and a store keeps its low eight bits.
abbrev pub Bytes : Type 0
Bytes = ℕ → ℕ

-- `(unsigned char)v`
abbrev pub u8 : ℕ → ℕ
u8 v = v % 2 ^ 8

-- `*p = v`
abbrev pub store : Bytes → ℕ → ℕ → Bytes
store m p v a = if a == p then v else m a

-- The `n` bytes from `p` on.
unfoldable pub bytes_at : ℕ → ℕ → Bytes → List ℕ
bytes_at zero p m = []
bytes_at (suc n) p m = m p ∷ bytes_at n (p + 1) m
