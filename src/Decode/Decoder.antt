-- ===== src/Decode/Decoder.antt =====
-- `ARM_decoder_dispatch` (ARM_decode_table.c) with the decoding functions that are modelled. The
-- others are a parameter, `rest`.
use rpi_stub.Common.{ℕ}
use rpi_stub.Instr.Next.{NextAddr}
use rpi_stub.Stub.Memory.{Memory}
use rpi_stub.Decode.Extra.{
  Extra, Decoder, branch, coproc, core_data_bit, core_data_div, core_data_mac, core_data_macd,
  core_data_std_i, core_data_std_r, core_data_std_sh, core_exc, core_ldst, core_ldstm, core_misc,
  fp, mux, v_bits, v_comp, v_mac, v_misc, v_par, v_shift, vfp_ldst_elem,
}
use rpi_stub.Decode.Search.{dispatch}
use rpi_stub.Decode.Context.{Context}
use rpi_stub.Decode.Branch.{arm_branch}
use rpi_stub.Decode.Coproc.{arm_coproc}
use rpi_stub.Decode.Divide.{arm_core_data_div}
use rpi_stub.Decode.Multiply.{arm_core_data_mac}
use rpi_stub.Decode.MultiplyLong.{arm_core_data_macd}
use rpi_stub.Decode.DataBit.{arm_core_data_bit}
use rpi_stub.Decode.DataReg.{arm_core_data_std_r}
use rpi_stub.Decode.DataShift.{arm_core_data_std_sh}
use rpi_stub.Decode.DataImm.{arm_core_data_std_i}
use rpi_stub.Decode.LoadMultiple.{arm_core_ldstm}
use rpi_stub.Decode.Load.{arm_core_ldst}
use rpi_stub.Decode.Misc.{arm_core_misc}
use rpi_stub.Decode.Exception.{SystemRegs, arm_core_exc}
use rpi_stub.Decode.Mux.{arm_mux}
use rpi_stub.Decode.Vector.{
  arm_fp, arm_v_bits, arm_v_comp, arm_v_mac, arm_v_misc, arm_v_par, arm_v_shift, arm_vfp_ldst_elem,
}

-- What the decoding functions read: the saved registers, the memory and the system registers, and
-- what a variable holds that was never assigned.
pub record Machine : Type 0 where
  pub context : Context
  pub memory : Memory
  pub system : SystemRegs
  pub uninit : ℕ

-- the functions by their names in the table
unfoldable pub decoders :
    Machine → (Decoder → ℕ → Extra → NextAddr) → Decoder → ℕ → Extra → NextAddr
unfolding arm_branch arm_coproc arm_core_data_div arm_core_data_mac arm_core_data_macd
    arm_core_data_bit arm_core_data_std_r arm_core_data_std_sh arm_core_data_std_i arm_core_ldstm
    arm_core_ldst arm_core_misc arm_core_exc arm_mux arm_fp arm_v_bits arm_v_comp arm_v_mac
    arm_v_misc arm_v_par arm_v_shift arm_vfp_ldst_elem
decoders k rest branch = arm_branch k.context
decoders k rest coproc = arm_coproc
decoders k rest core_data_bit = arm_core_data_bit k.context k.uninit
decoders k rest core_data_div = arm_core_data_div k.context
decoders k rest core_data_mac = arm_core_data_mac k.context
decoders k rest core_data_macd = arm_core_data_macd k.context
decoders k rest core_data_std_i = arm_core_data_std_i k.context
decoders k rest core_data_std_r = arm_core_data_std_r k.context
decoders k rest core_data_std_sh = arm_core_data_std_sh k.context
decoders k rest core_exc = arm_core_exc k.system k.context k.memory
decoders k rest core_ldst = arm_core_ldst k.context k.memory
decoders k rest core_ldstm = arm_core_ldstm k.context k.memory
decoders k rest core_misc = arm_core_misc k.context k.memory
decoders k rest fp = arm_fp
decoders k rest mux = arm_mux k.context k.uninit arm_vfp_ldst_elem
decoders k rest v_bits = arm_v_bits
decoders k rest v_comp = arm_v_comp
decoders k rest v_mac = arm_v_mac
decoders k rest v_misc = arm_v_misc
decoders k rest v_par = arm_v_par
decoders k rest v_shift = arm_v_shift
decoders k rest vfp_ldst_elem = arm_vfp_ldst_elem
decoders k rest other = rest other

-- `ARM_decoder_dispatch`
unfoldable pub decode : Machine → (Decoder → ℕ → Extra → NextAddr) → ℕ → NextAddr
unfolding dispatch decoders
decode k rest instr = dispatch (decoders k rest) instr
