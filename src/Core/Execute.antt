-- ===== src/Core/Execute.antt =====
-- `Core::execute`.
use qtrvsim.Base.{ℕ, ◌+◌, ◌%◌, ◌^◌, ◌==◌, if◌then◌else◌}
use qtrvsim.Alu.{alu_combined_operate}
use qtrvsim.Core.Stage.{DecodeInterstage, ExecuteInterstage}
use qtrvsim.Core.Fetch.{is_none}

-- The first and the second operand.
abbrev pub alu_first : DecodeInterstage → ℕ
alu_first dt = if dt.alu_pc then dt.inst_addr else dt.val_rs

abbrev pub alu_second : DecodeInterstage → ℕ
alu_second dt =
    if dt.csr_to_alu then dt.csr_read_val else if dt.alusrc then dt.immediate_val else dt.val_rt

abbrev pub alu_value : DecodeInterstage → ℕ
alu_value dt =
    if is_none dt.excause
    then alu_combined_operate dt.aluop dt.alu_component dt.w_operation dt.alu_mod (alu_first dt)
        (alu_second dt)
    else 0

unfoldable pub execute : DecodeInterstage → ExecuteInterstage
execute dt = record {
  inst = dt.inst;
  inst_addr = dt.inst_addr;
  next_inst_addr = dt.next_inst_addr;
  predicted_next_inst_addr = dt.predicted_next_inst_addr;
  branch_jal_target = (dt.inst_addr + dt.immediate_val) % 2 ^ 64;
  val_rt = dt.val_rt;
  alu_val = alu_value dt;
  immediate_val = dt.immediate_val;
  csr_read_val = dt.csr_read_val;
  csr_address = dt.csr_address;
  excause = dt.excause;
  memctl = dt.memctl;
  num_rd = dt.num_rd;
  memread = dt.memread;
  memwrite = dt.memwrite;
  regwrite = dt.regwrite;
  is_valid = dt.is_valid;
  branch_bxx = dt.branch_bxx;
  branch_jal = dt.branch_jal;
  branch_val = dt.branch_val;
  branch_jalr = dt.branch_jalr;
  alu_zero = alu_value dt == 0;
  csr = dt.csr;
  csr_write = dt.csr_write;
  xret = dt.xret;
  xret_privlev = dt.xret_privlev;
  amo = dt.amo;
}
