-- ===== src/Lib.antt =====
-- rpi_stub: a gdb stub for the Raspberry Pi 2. A client on a serial line sends packets; the stub
-- answers them from inside the exceptions that stop the debuggee.
--
-- The parts, and the files that model them:
--   Common      tests, lists, bit operations and integers that the parts share.
--   Util        util.c. Util/Hex, Util/Decimal, Util/Text, Util/Escape and Util/Swap hold the functions,
--               named as in C without `util_`; the modules below them hold their laws.
--   Packet      gdb.c: Packet/Data the data formats (gdb_write_hex_data and its kin), Packet/Frame
--               receive_packet and gdb_send_packet, over a device (Packet/Device, io_device of io_dev.h).
--   Serial      serial.c: Serial/Uart the two ring buffers and the interrupt side (serial_rx, serial_tx,
--               serial_irq, serial_poll), Serial/Api the functions that others call, Serial/Device the
--               driver as the device of Packet. Serial/Ring reads a ring buffer as a queue.
--   Stub        gdb.c with rpi2.c: Stub/Breakpoints and Stub/Watchpoints the tables, the traps in the
--               debuggee's memory (Stub/Memory) and the debug registers.
--               Stub/Step is why the debuggee stopped and the step to the next instruction.
--   Command     gdb.c: commands, from the packet to the payload of the answer. Command/Memory:
--               gdb_cmd_read_mem_hex and its kin. Command/Registers: gdb_cmd_read_reg and
--               gdb_cmd_write_reg. Command/RegisterFile: gdb_cmd_get_regs and gdb_cmd_set_regs.
--               Command/Breakpoint: gdb_cmd_add_breakpoint and gdb_cmd_delete_breakpoint.
--   Instr       instr.c, instr_comm.c and instr_util.c: whether a condition holds, what address comes
--               next, and fields of words.
--   Decode      ARM_decode_table.c. Decode/Extra, Decode/Row and Decode/Table are the table
--               (ARM_decode_table_data.h, ARM_decode_table_extras.h), Decode/Search the search in it
--               (ARM_decoder_dispatch), the others a decoding function each: Branch (arm_branch), Mux
--               (arm_mux), Coproc, Divide, Multiply, MultiplyLong, DataBit, DataReg, DataShift, DataImm
--               (arm_core_data_...), Load, LoadMultiple (arm_core_ldst, arm_core_ldstm), Misc, Exception
--               and Vector. Decode/Decoder puts them together. Decode/Narrow finds the row of an
--               instruction from the bits that are known of it. Decode/Alu and Decode/Return/Leads are
--               the architecture's operations, operands and returns, which the theorems compare with.
--
-- The parts meet where they meet in C: Packet takes a device as a record of operations and laws, and
-- Serial/Device fills it; Stub, Instr and Decode share the memory, and the step of
-- Instr and Stub takes the decoder as a parameter, which Decode gives.
--
-- State is passed on explicitly: a record has the global variables of a C file as fields. A C string
-- or buffer is the list of its bytes. A plain char is unsigned, the default on ARM, as in the Debug
-- build; the Release configuration of .cproject makes it signed. An address that is counted up does
-- not wrap at 2^32. Results below zero are the constructor negsuc of Common/Int, or `none` where only
-- -1 is possible. What the UART reads during a run is an input, a list of readings. A function of the
-- driver runs without the receiver's interrupt between its steps; what arrives comes in through
-- serial_poll or before the call.
--
-- Loops that wait for a device have a number of rounds. The packets' theorems ask for one round more
-- than there are characters before the `$`. serial_get_string has 11 n + 6 rounds: a character takes one
-- round and at most ten empty ones before it, or five before the first. serial_put_string has
-- 12 (n + 2): at most n + 1 characters with eleven tries each. The search for the highest bit of a
-- watchpoint's size has 32 rounds for 32 bits.
--
-- Not modelled: the command loop (gdb_monitor) and the gdb_cmd functions but for those of Command and
-- gdb_cmd_single_step, the decoding functions of packing, parallel and saturating arithmetic, of
-- double, exclusive, half-word and signed loads, of status registers and of vector registers (a
-- parameter of Decode/Decoder), and the command line (loader.c); and exception entry, caches and the
-- MMU, which are assembly (rpi2.c, start.S), the UART's set-up, the fixed XML text (target_xml.c) and
-- the log.
pub mod Common
pub mod Util
pub mod Packet
pub mod Stub
pub mod Serial
pub mod Command
pub mod Decode
pub mod Instr
