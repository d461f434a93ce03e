-- ===== src/Libc/Strings/Tests.antt =====
-- The string functions at concrete inputs.
use cho_os.Prelude.{◌+◌, ◌-◌, ◌≡◌, refl, ◌==◌, if◌then◌else◌, arith}
use cho_os.Libc.Bytes.{Bytes}
use cho_os.Libc.Strings.{memmove, copy_up, copy_down}
use cho_os.Libc.Strings.Copy.{within, IsString, memmove_lem}

-- "abc" at 10, and 7 elsewhere
abbrev sample : Bytes
sample a =
    if a == 10 then 97 else if a == 11 then 98 else if a == 12 then 99 else if a == 13 then 0 else 7

sample-IsString : IsString sample 10 3
sample-IsString = record { filled = λ k h. ground arith; ended = refl }

overlap : memmove 11 10 3 sample 13 ≡ 99
unfolding memmove copy_up copy_down
overlap = refl

memmove_lem_example :
    memmove 12 10 4 sample 13 ≡ (if within 12 4 13 then sample (10 + (13 - 12)) else sample 13)
memmove_lem_example = memmove_lem 12 10 4 sample 13
