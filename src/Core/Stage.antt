-- ===== src/Core/Stage.antt =====
-- The interstage registers of src/machine/pipeline.h, the copies that the next step reads. The copies for
-- the user interface and the values kept for it alone are left out.
use qtrvsim.Base.{ℕ, Bool, false}
use qtrvsim.Alu.{AluOp, MulOp, AluComponent, AluCombinedOp}
use qtrvsim.Csr.Address.{PrivilegeLevel, ExceptionCause}
use qtrvsim.Core.Memory.{AccessControl}

pub data ForwardFrom : Type 0 where
  none from_w from_m : ForwardFrom

abbrev pub nop : ℕ
nop = 0x00000013

abbrev pub stageaddr_none : ℕ
stageaddr_none = 0xffffffff

pub record FetchInterstage : Type 0 where
  pub inst : ℕ
  pub inst_addr : ℕ
  pub next_inst_addr : ℕ
  pub predicted_next_inst_addr : ℕ
  pub excause : ExceptionCause
  pub is_valid : Bool

-- What `flush` leaves.
abbrev pub no_fetch : FetchInterstage
no_fetch = record {
  inst = nop;
  inst_addr = stageaddr_none;
  next_inst_addr = 0;
  predicted_next_inst_addr = 0;
  excause = ExceptionCause.none;
  is_valid = false;
}

pub record DecodeInterstage : Type 0 where
  pub inst : ℕ
  pub inst_addr : ℕ
  pub next_inst_addr : ℕ
  pub predicted_next_inst_addr : ℕ
  pub val_rs : ℕ
  pub val_rt : ℕ
  pub immediate_val : ℕ
  pub csr_read_val : ℕ
  pub csr_address : ℕ
  pub excause : ExceptionCause
  pub ff_rs : ForwardFrom
  pub ff_rt : ForwardFrom
  pub alu_component : AluComponent
  pub aluop : AluCombinedOp
  pub memctl : AccessControl
  pub num_rs : ℕ
  pub num_rt : ℕ
  pub num_rd : ℕ
  pub memread : Bool
  pub memwrite : Bool
  pub alusrc : Bool
  pub regwrite : Bool
  pub alu_req_rs : Bool
  pub alu_req_rt : Bool
  pub branch_bxx : Bool
  pub branch_jal : Bool
  pub branch_val : Bool
  pub branch_jalr : Bool
  pub stall : Bool
  pub is_valid : Bool
  pub w_operation : Bool
  pub alu_mod : Bool
  pub alu_pc : Bool
  pub csr : Bool
  pub csr_to_alu : Bool
  pub csr_write : Bool
  pub xret : Bool
  pub xret_privlev : PrivilegeLevel
  pub insert_stall_before : Bool
  pub amo : Bool

-- What `flush` leaves.
abbrev pub no_decode : DecodeInterstage
no_decode = record {
  inst = nop;
  inst_addr = stageaddr_none;
  next_inst_addr = 0;
  predicted_next_inst_addr = 0;
  val_rs = 0;
  val_rt = 0;
  immediate_val = 0;
  csr_read_val = 0;
  csr_address = 0;
  excause = ExceptionCause.none;
  ff_rs = ForwardFrom.none;
  ff_rt = ForwardFrom.none;
  alu_component = AluComponent.alu;
  aluop = record { alu_op = AluOp.add; mul_op = MulOp.mul };
  memctl = AccessControl.none;
  num_rs = 0;
  num_rt = 0;
  num_rd = 0;
  memread = false;
  memwrite = false;
  alusrc = false;
  regwrite = false;
  alu_req_rs = false;
  alu_req_rt = false;
  branch_bxx = false;
  branch_jal = false;
  branch_val = false;
  branch_jalr = false;
  stall = false;
  is_valid = false;
  w_operation = false;
  alu_mod = false;
  alu_pc = false;
  csr = false;
  csr_to_alu = false;
  csr_write = false;
  xret = false;
  xret_privlev = PrivilegeLevel.unprivileged;
  insert_stall_before = false;
  amo = false;
}

pub record ExecuteInterstage : Type 0 where
  pub inst : ℕ
  pub inst_addr : ℕ
  pub next_inst_addr : ℕ
  pub predicted_next_inst_addr : ℕ
  pub branch_jal_target : ℕ
  pub val_rt : ℕ
  pub alu_val : ℕ
  pub immediate_val : ℕ
  pub csr_read_val : ℕ
  pub csr_address : ℕ
  pub excause : ExceptionCause
  pub memctl : AccessControl
  pub num_rd : ℕ
  pub memread : Bool
  pub memwrite : Bool
  pub regwrite : Bool
  pub is_valid : Bool
  pub branch_bxx : Bool
  pub branch_jal : Bool
  pub branch_val : Bool
  pub branch_jalr : Bool
  pub alu_zero : Bool
  pub csr : Bool
  pub csr_write : Bool
  pub xret : Bool
  pub xret_privlev : PrivilegeLevel
  pub amo : Bool

-- What `flush` leaves.
abbrev pub no_execute : ExecuteInterstage
no_execute = record {
  inst = nop;
  inst_addr = stageaddr_none;
  next_inst_addr = 0;
  predicted_next_inst_addr = 0;
  branch_jal_target = 0;
  val_rt = 0;
  alu_val = 0;
  immediate_val = 0;
  csr_read_val = 0;
  csr_address = 0;
  excause = ExceptionCause.none;
  memctl = AccessControl.none;
  num_rd = 0;
  memread = false;
  memwrite = false;
  regwrite = false;
  is_valid = false;
  branch_bxx = false;
  branch_jal = false;
  branch_val = false;
  branch_jalr = false;
  alu_zero = false;
  csr = false;
  csr_write = false;
  xret = false;
  xret_privlev = PrivilegeLevel.unprivileged;
  amo = false;
}

pub record MemoryInterstage : Type 0 where
  pub inst : ℕ
  pub inst_addr : ℕ
  pub next_inst_addr : ℕ
  pub predicted_next_inst_addr : ℕ
  pub computed_next_inst_addr : ℕ
  pub mem_addr : ℕ
  pub towrite_val : ℕ
  pub excause : ExceptionCause
  pub num_rd : ℕ
  pub memtoreg : Bool
  pub regwrite : Bool
  pub is_valid : Bool
  pub csr_written : Bool
  pub xret_privlev : PrivilegeLevel

-- What `flush` leaves.
abbrev pub no_memory : MemoryInterstage
no_memory = record {
  inst = nop;
  inst_addr = stageaddr_none;
  next_inst_addr = 0;
  predicted_next_inst_addr = 0;
  computed_next_inst_addr = 0;
  mem_addr = 0;
  towrite_val = 0;
  excause = ExceptionCause.none;
  num_rd = 0;
  memtoreg = false;
  regwrite = false;
  is_valid = false;
  csr_written = false;
  xret_privlev = PrivilegeLevel.unprivileged;
}
