-- ===== src/Decode/Vector.antt =====
-- The decoding functions of floating point and vector instructions that never change the program
-- flow, and `arm_vfp_ldst_elem` (ARM_decode_table.c).
use rpi_stub.Common.{ℕ, Bool, false, ◌==◌, ◌&&◌, ◌||◌, not, if◌then◌else◌, bit_and}
use rpi_stub.Instr.Next.{NextAddr, undef_addr}
use rpi_stub.Instr.Word.{bit, bitrng}
use rpi_stub.Decode.Extra.{
  Extra, arm_vldste_vld1_mult, arm_vldste_vst1_mult, arm_vldste_vld2_mult, arm_vldste_vst2_mult,
  arm_vldste_vld3_mult, arm_vldste_vst3_mult, arm_vldste_vld4_mult, arm_vldste_vst4_mult,
  arm_vldste_vld1_one, arm_vldste_vst1_one, arm_vldste_vld2_one, arm_vldste_vst2_one,
  arm_vldste_vld3_one, arm_vldste_vst3_one, arm_vldste_vld4_one, arm_vldste_vst4_one,
  arm_vldste_vld1_all, arm_vldste_vld2_all, arm_vldste_vld3_all, arm_vldste_vld4_all,
}
use rpi_stub.Decode.Context.{addr_lin}

unfoldable pub arm_fp : ℕ → Extra → NextAddr
arm_fp instr extra = addr_lin

unfoldable pub arm_v_bits : ℕ → Extra → NextAddr
arm_v_bits instr extra = addr_lin

unfoldable pub arm_v_comp : ℕ → Extra → NextAddr
arm_v_comp instr extra = addr_lin

unfoldable pub arm_v_mac : ℕ → Extra → NextAddr
arm_v_mac instr extra = addr_lin

unfoldable pub arm_v_misc : ℕ → Extra → NextAddr
arm_v_misc instr extra = addr_lin

unfoldable pub arm_v_par : ℕ → Extra → NextAddr
arm_v_par instr extra = addr_lin

unfoldable pub arm_v_shift : ℕ → Extra → NextAddr
arm_v_shift instr extra = addr_lin

-- `und` behind the cases of `arm_vfp_ldst_elem`: whether a field has a value that is not allowed
unfoldable pub und_mult1 : ℕ → Bool
unfolding bitrng
und_mult1 instr =
    let t = bitrng instr 11 8 in
    let align = bitrng instr 5 4 in
    ((t == 6) || (t == 7)) && not (bit_and align 2 == 0) || (t == 10) && (align == 3)

unfoldable pub und_mult2 : ℕ → Bool
unfolding bitrng
und_mult2 instr =
    let t = bitrng instr 11 8 in
    (bitrng instr 7 6 == 3) || ((t == 8) || (t == 9)) && (bitrng instr 5 4 == 3)

unfoldable pub und_one1 : ℕ → Bool
unfolding bitrng
und_one1 instr =
    let size = bitrng instr 11 10 in
    let index = bitrng instr 7 4 in
    (size == 0) && not (bit_and index 1 == 0)
    || (size == 1) && not (bit_and index 2 == 0)
    || (size == 2)
      && (not (bit_and index 4 == 0) || (bit_and index 3 == 1) || (bit_and index 3 == 2))

unfoldable pub und_one3 : ℕ → Bool
unfolding bitrng
und_one3 instr =
    let size = bitrng instr 11 10 in
    let index = bitrng instr 7 4 in
    ((size == 0) || (size == 1)) && not (bit_and index 1 == 0)
    || (size == 2) && not (bit_and index 3 == 0)

unfoldable pub und : ℕ → Extra → Bool
unfolding bit bitrng und_mult1 und_mult2 und_one1 und_one3
und instr arm_vldste_vld1_mult = und_mult1 instr
und instr arm_vldste_vst1_mult = und_mult1 instr
und instr arm_vldste_vld2_mult = und_mult2 instr
und instr arm_vldste_vst2_mult = und_mult2 instr
und instr arm_vldste_vld3_mult = not (bit instr 5 == 0) || (bitrng instr 7 6 == 3)
und instr arm_vldste_vst3_mult = not (bit instr 5 == 0) || (bitrng instr 7 6 == 3)
und instr arm_vldste_vld4_mult = bitrng instr 7 6 == 3
und instr arm_vldste_vst4_mult = bitrng instr 7 6 == 3
und instr arm_vldste_vld1_one = und_one1 instr
und instr arm_vldste_vst1_one = und_one1 instr
und instr arm_vldste_vld2_one = (bitrng instr 11 10 == 2) && not (bit_and (bitrng instr 7 4) 2 == 0)
und instr arm_vldste_vst2_one = (bitrng instr 11 10 == 2) && not (bit_and (bitrng instr 7 4) 2 == 0)
und instr arm_vldste_vld3_one = und_one3 instr
und instr arm_vldste_vst3_one = und_one3 instr
und instr arm_vldste_vld4_one = (bitrng instr 11 10 == 2) && not (bit_and (bitrng instr 7 4) 3 == 0)
und instr arm_vldste_vst4_one = (bitrng instr 11 10 == 2) && not (bit_and (bitrng instr 7 4) 3 == 0)
und instr arm_vldste_vld1_all =
    (bitrng instr 7 6 == 3) || (bitrng instr 7 6 == 0) && not (bit instr 4 == 0)
und instr arm_vldste_vld2_all = bitrng instr 7 6 == 3
und instr arm_vldste_vld3_all = (bitrng instr 7 6 == 3) || not (bit instr 4 == 0)
und instr arm_vldste_vld4_all = (bitrng instr 7 6 == 3) && (bit instr 4 == 0)
und instr _ = false

-- `arm_vfp_ldst_elem`: the statements that assign another address than the first, and `unp`, stand
-- behind a `break` and are never run.
unfoldable pub arm_vfp_ldst_elem : ℕ → Extra → NextAddr
unfolding und
arm_vfp_ldst_elem instr extra =
    let retval = undef_addr in if und instr extra then undef_addr else retval
