-- ===== src/Util/Text.antt =====
-- C strings (util.c): length, comparison, copying and the stripping of zeros. A C string is the list
-- of its characters, with its terminator in the list or at its end.
pub mod Compare
pub mod Copy
use rpi_stub.Common.{ℕ, zero, suc, ◌+◌, ◌&&◌, not, [], ◌∷◌, Bytes, drop, leb, ◌==◌, if◌then◌else◌}
use rpi_stub.Common.Int.{ℤ, pos, negsuc}
use rpi_stub.Util.Hex.{peek}

-- the loop of `util_str_len`
unfoldable pub len_loop : Bytes → ℕ → ℕ
len_loop [] i = i
len_loop (c ∷ p) i = if c == 0 then i else len_loop p (i + 1)

-- `util_str_len`
unfoldable pub str_len : Bytes → ℕ
unfolding len_loop
str_len p = len_loop p 0

-- `util_str_cmp`: 0 where the strings are equal
unfoldable pub str_cmp : Bytes → Bytes → ℕ
str_cmp [] str2 = if 0 == peek str2 then 0 else 1
str_cmp (c ∷ str1) str2 =
    if c == peek str2 then (if c == 0 then 0 else str_cmp str1 (drop 1 str2)) else 1

-- the loop of `util_cmp_substr`
unfoldable pub cmp_loop : Bytes → Bytes → ℕ → ℕ
cmp_loop [] str2 i = if 0 == peek str2 then i + 1 else i
cmp_loop (c ∷ str1) str2 i =
    if c == peek str2
    then (if c == 0
        then i + 1
        else if peek str2 == 0
        then i + 1
        else cmp_loop str1 (drop 1 str2) (i + 1))
    else i

-- `util_cmp_substr`
unfoldable pub cmp_substr : Bytes → Bytes → ℕ
unfolding cmp_loop
cmp_substr str1 str2 = cmp_loop str1 str2 0

-- what is written, with one more character in front
abbrev pub written : ℕ → Bytes × ℕ → Bytes × ℕ
written c r = (c ∷ r.0, r.1)

-- the loop of `util_str_copy` and the terminator behind it
unfoldable pub copy_loop : ℕ → Bytes → ℕ → Bytes × ℕ
copy_loop max_count [] cnt = (0 ∷ [], cnt)
copy_loop max_count (c ∷ src) cnt =
    if c == 0
    then (0 ∷ [], cnt)
    else if leb max_count (cnt + 1)
    then (c ∷ 0 ∷ [], cnt + 1)
    else written c (copy_loop max_count src (cnt + 1))

-- `util_str_copy`: what it writes to `dest`, and its result
unfoldable pub str_copy : Bytes → ℤ → Bytes × ℕ
unfolding copy_loop
str_copy src (negsuc n) = ([], 0)
str_copy src (pos zero) = ([], 0)
str_copy src (pos (suc n)) = copy_loop (suc n) src 0

-- the second loop of `util_append_str`; `i >= max - 1` behind `i++` is `max <= i + 2`
unfoldable pub append_tail : ℕ → Bytes → ℕ → Bytes × ℕ
append_tail max [] i = (0 ∷ [], i)
append_tail max (c ∷ src) i =
    if c == 0
    then (0 ∷ [], i)
    else if leb max (i + 2)
    then (c ∷ 0 ∷ [], i + 1)
    else written c (append_tail max src (i + 1))

-- the first loop of `util_append_str`, and what follows it
unfoldable pub append_loop : ℕ → Bytes → Bytes → ℕ → Bytes × ℕ
unfolding append_tail
append_loop max [] src i = append_tail max src i
append_loop max (c ∷ dst) src i =
    if c == 0
    then append_tail max src i
    else if leb max (i + 2)
    then (c ∷ dst, i + 1)
    else written c (append_loop max dst src (i + 1))

-- `util_append_str`: what stands at `dst` up to its terminator, and the result
unfoldable pub append_str : Bytes → Bytes → ℕ → Bytes × ℕ
unfolding append_loop
append_str dst src max = append_loop max dst src 0

-- the loop of `util_cpy_substr`
unfoldable pub substr_loop : ℕ → ℕ → Bytes → ℕ → Bytes × ℕ
substr_loop delim max [] i = (0 ∷ [], i)
substr_loop delim max (c ∷ src) i =
    if c == delim
    then (0 ∷ [], i)
    else if c == 0
    then (0 ∷ [], i)
    else if leb max (i + 2)
    then (c ∷ 0 ∷ [], i + 1)
    else written c (substr_loop delim max src (i + 1))

-- `util_cpy_substr`: what it writes to `dst`, and its result
unfoldable pub cpy_substr : Bytes → ℕ → ℕ → Bytes × ℕ
unfolding substr_loop
cpy_substr src delim max = substr_loop delim max src 0

-- `while ((*(src+1) != '\0') && (*src == '0')) src++;`
unfoldable pub skip_leading : Bytes → Bytes
skip_leading [] = []
skip_leading (c ∷ src) = if not (peek src == 0) && (c == b'0') then skip_leading src else c ∷ src

-- `util_strip_zeros`: where `*dst` points, and the result
unfoldable pub strip_zeros : Bytes → Bytes × ℕ
unfolding skip_leading str_len
strip_zeros src = if peek src == 0 then (src, 0) else (skip_leading src, str_len (skip_leading src))
