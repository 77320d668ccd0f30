-- ===== src/Packet/Device.antt =====
-- The driver that packets go through (`io_device` of io_dev.h), as the functions of it that the
-- packets use, and what the packets rely on.
use rpi_stub.Common.{ℕ, ◌≤◌, ◌≡◌, Option, some, ◌∷◌, ◌++◌, Bytes, length, take, drop, until}

-- `get_char`, where `none` is its -1; `get_string` with its delimiter and its limit; `write`, with
-- the bytes it may take. The results are the bytes stored and the number of bytes taken.
pub record IoDevice (S : Type 0) : Type 0 where
  pub get_char : S → Option ℕ × S
  pub get_string : ℕ → ℕ → S → Bytes × S
  pub write : Bytes → S → ℕ × S

-- A device that has received bytes gives them in order: `Ready s bs` where the bytes `bs` wait.
pub record Receives {S : Type 0} (device : IoDevice S) (Ready : S → Bytes → Type 0) : Type 0 where
  pub get_char-first :
      {s : S} (b : ℕ) {bs : Bytes}
      → Ready s (b ∷ bs)
      → (t : S) × (device.get_char s ≡ (some b, t)) × Ready t bs
  pub get_string-until :
      {s : S} (delim n : ℕ) {bs : Bytes}
      → Ready s bs
      → (t : S) × (device.get_string delim n s ≡ (until delim n bs, t))
        × Ready t (drop (length (until delim n bs)) bs)

-- A device takes a beginning of what it is given, and puts it on the line.
pub record Sends {S : Type 0} (device : IoDevice S) (line : S → Bytes) : Type 0 where
  pub write-prefix :
      (buf : Bytes) (s : S)
      → ((device.write buf s).0 ≤ length buf)
        × (line (device.write buf s).1 ≡ line s ++ take (device.write buf s).0 buf)
