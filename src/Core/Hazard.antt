-- ===== src/Core/Hazard.antt =====
-- The hazard unit of the pipelined core: `is_hazard_in_stage`, `CorePipelined::handle_data_hazards`,
-- `detect_mispredicted_jump` and `is_stall_requested`.
pub mod Forward
pub mod Stalls
use qtrvsim.Base.{ℕ, Bool, true, false, not, ◌&&◌, ◌||◌, ◌==◌, if◌then◌else◌}
use qtrvsim.Core.Stage.{ForwardFrom, DecodeInterstage, ExecuteInterstage, MemoryInterstage}

pub data HazardUnit : Type 0 where
  none stall stall_forward : HazardUnit

-- The arguments are the two fields that the test reads of either stage.
unfoldable pub is_hazard_in_stage : Bool → ℕ → DecodeInterstage → Bool
is_hazard_in_stage regwrite num_rd id_ex =
    regwrite
    && not (num_rd == 0)
    && (id_ex.alu_req_rs && num_rd == id_ex.num_rs || id_ex.alu_req_rt && num_rd == id_ex.num_rt)

abbrev pub forward_rs : ForwardFrom → ℕ → ℕ → DecodeInterstage → DecodeInterstage
forward_rs stage num_rd value id_ex =
    if id_ex.alu_req_rs && num_rd == id_ex.num_rs
    then record id_ex { val_rs = value; ff_rs = stage }
    else id_ex

abbrev pub forward_rt : ForwardFrom → ℕ → ℕ → DecodeInterstage → DecodeInterstage
forward_rt stage num_rd value id_ex =
    if id_ex.alu_req_rt && num_rd == id_ex.num_rt
    then record id_ex { val_rt = value; ff_rt = stage }
    else id_ex

abbrev pub forward : ForwardFrom → ℕ → ℕ → DecodeInterstage → DecodeInterstage
forward stage num_rd value id_ex =
    forward_rt stage num_rd value (forward_rs stage num_rd value id_ex)

-- A hazard on the stage after the memory.
unfoldable pub handle_mem_wb :
    HazardUnit → MemoryInterstage → DecodeInterstage → Bool × DecodeInterstage
handle_mem_wb HazardUnit.stall_forward mem_wb id_ex = (
  false,
  if is_hazard_in_stage mem_wb.regwrite mem_wb.num_rd id_ex
      then forward ForwardFrom.from_w mem_wb.num_rd mem_wb.towrite_val id_ex
      else id_ex,
)
handle_mem_wb unit mem_wb id_ex = (is_hazard_in_stage mem_wb.regwrite mem_wb.num_rd id_ex, id_ex)

-- A hazard on the stage after the arithmetic unit.
unfoldable pub handle_ex_mem :
    HazardUnit → ExecuteInterstage → DecodeInterstage → Bool × DecodeInterstage
handle_ex_mem HazardUnit.stall_forward ex_mem id_ex =
    if is_hazard_in_stage ex_mem.regwrite ex_mem.num_rd id_ex
    then if ex_mem.memread
      then (true, id_ex)
      else (false, forward ForwardFrom.from_m ex_mem.num_rd ex_mem.alu_val id_ex)
    else (false, id_ex)
handle_ex_mem unit ex_mem id_ex = (is_hazard_in_stage ex_mem.regwrite ex_mem.num_rd id_ex, id_ex)

unfoldable pub handle_data_hazards :
    HazardUnit → MemoryInterstage → ExecuteInterstage → DecodeInterstage → Bool × DecodeInterstage
handle_data_hazards unit mem_wb ex_mem id_ex =
    let (stall_w, from_w) = handle_mem_wb unit mem_wb id_ex in
    let (stall_m, from_m) = handle_ex_mem unit ex_mem from_w in (stall_w || stall_m, from_m)

abbrev pub detect_mispredicted_jump : MemoryInterstage → Bool
detect_mispredicted_jump mem_wb =
    not (mem_wb.computed_next_inst_addr == mem_wb.predicted_next_inst_addr)

abbrev pub is_stall_requested : DecodeInterstage → ExecuteInterstage → Bool
is_stall_requested id_ex ex_mem = id_ex.insert_stall_before && ex_mem.is_valid
