-- ===== src/Csr/State.antt =====
-- `ControlState`, src/machine/csr/controlstate.h and controlstate.cpp. `none` is the exception of an
-- unsupported instruction. The signals are left out.
use qtrvsim.Base.{
  ℕ, ◌+◌, ◌-◌, ◌*◌, ◌/◌, ◌%◌, ◌^◌, bit_and, bit_or, Bool, not, ◌&&◌, ◌||◌, Option, none, some, List,
  map, get_or, set, ltb, leb, ◌==◌, if◌then◌else◌,
}
use mathlib.Core.Option
use qtrvsim.Csr.Address.{
  Xlen, is_32, PrivilegeLevel, level_number, level_of_number, is_machine, is_supervisor,
  is_writable, get_privilege_level, ExceptionCause, cause_number, is_interrupt,
}
use qtrvsim.Csr.Field
use qtrvsim.Csr.Field.{
  BitField, bit_not, decode, mask, sie, mie, spie, mpie, spp, mpp, mprv, sum, mxr, uxl, sxl,
}
use qtrvsim.Csr.Table.{
  RegisterDesc, WriteHandler, registers, get_register_internal_id, id_cycle, id_mstatus, id_misa,
  id_mie, id_mideleg, id_mip, id_mtvec, id_mcause, id_sstatus, id_sie, id_stvec, id_scause, id_sip,
}

pub record ControlState : Type 0 where
  pub xlen : Xlen
  pub register_data : List ℕ

unfoldable pub read_internal : ControlState → ℕ → ℕ
read_internal s id = get_or s.register_data id 0

-- `register_data[id] = value`
unfoldable pub store : ControlState → ℕ → ℕ → ControlState
store s id value = record s { register_data = set s.register_data id value }

-- The fields of `mstatus` that `sstatus` shows.
unfoldable pub s_mask : Xlen → ℕ
unfolding mask
s_mask xlen =
    let narrow =
      bit_or (bit_or (bit_or (bit_or (mask sie) (mask spie)) (mask spp)) (mask sum)) (mask mxr) in
    if is_32 xlen then narrow else bit_or (bit_or narrow (mask uxl)) (mask sxl)

abbrev pub cut : Xlen → ℕ → ℕ
cut xlen u = if is_32 xlen then bit_and u 0xffffffff else u

unfoldable pub default_value : Xlen → ℕ → ℕ → ℕ → ℕ
default_value xlen write_mask reg val =
    cut xlen (bit_or (bit_and val write_mask) (bit_and reg (bit_not write_mask)))

unfoldable pub satp_value : Xlen → ℕ → ℕ
satp_value xlen value =
    let mode = value / 2 ^ 60 % 2 ^ 4 in
    if is_32 xlen
    then bit_and value 0xffffffff
    else if not (mode == 0) && not (mode == 8) && not (mode == 9)
    then bit_and value (bit_not (0xf * 2 ^ 60))
    else value

-- The write handlers: `id` is the register that is written.
unfoldable pub write_with : WriteHandler → ℕ → ControlState → ℕ → ℕ → ControlState
write_with WriteHandler.default write_mask s id val =
    store s id (default_value s.xlen write_mask (read_internal s id) val)
write_with WriteHandler.mstatus write_mask s id val =
    let reg = default_value s.xlen write_mask (read_internal s id) val in
    store (store s id reg) id_sstatus (cut s.xlen (bit_and reg (s_mask s.xlen)))
write_with WriteHandler.satp write_mask s id val = store s id (satp_value s.xlen val)
write_with WriteHandler.mcycle write_mask s id val = store (store s id val) id_cycle val
write_with WriteHandler.sstatus write_mask s id val =
    let shown = s_mask s.xlen in
    let write_val = bit_and val write_mask in
    let mstatus_val =
      bit_or (bit_and (read_internal s id_mstatus) (bit_not shown)) (bit_and write_val shown) in
    store (store s id_mstatus mstatus_val) id (cut s.xlen (bit_and mstatus_val shown))

abbrev pub no_register : RegisterDesc
no_register = record {
  address = 0;
  initial_value = 0;
  write_mask = 0;
  write_handler = WriteHandler.default;
}

unfoldable pub write_internal : ControlState → ℕ → ℕ → ControlState
write_internal s id value =
    let desc = get_or registers id no_register in
    write_with desc.write_handler desc.write_mask s id value

unfoldable pub increment_internal : ControlState → ℕ → ℕ → ControlState
increment_internal s id amount = write_internal s id ((read_internal s id + amount) % 2 ^ 64)

unfoldable pub read : ControlState → ℕ → PrivilegeLevel → Option ℕ
read s address current_priv = Option.bind (get_register_internal_id address) λ id.
    if ltb (level_number current_priv) (level_number (get_privilege_level address))
    then none
    else some (read_internal s id)

unfoldable pub write : ControlState → ℕ → ℕ → PrivilegeLevel → Option ControlState
write s address value current_priv =
    if not (is_writable address)
    then none
    else if ltb (level_number current_priv) (level_number (get_privilege_level address))
    then none
    else Option.map (λ id. write_internal s id value) (get_register_internal_id address)

unfoldable pub read_field : ControlState → ℕ → BitField → ℕ
read_field s id f = decode f (read_internal s id)

unfoldable pub write_field : ControlState → ℕ → BitField → ℕ → ControlState
write_field s id f value = write_internal s id (Field.update f (read_internal s id) value)

unfoldable pub write_field_raw : ControlState → ℕ → BitField → ℕ → ControlState
write_field_raw s id f value = store s id (Field.update f (read_internal s id) value)

unfoldable pub reset : Xlen → ControlState
reset xlen =
    let start : ControlState = record {
      xlen = xlen;
      register_data = map (λ (desc : RegisterDesc). desc.initial_value) registers;
    } in
    let misa = bit_and (read_internal start id_misa) 0x3fffffff in
    if is_32 xlen
    then store start id_misa (bit_or misa (2 ^ 30))
    else write_field_raw
        (write_field_raw (store start id_misa (bit_or misa (2 * 2 ^ 62 % 2 ^ 64))) id_mstatus uxl 2)
        id_mstatus sxl 2

-- The constructor.
unfoldable pub make : Xlen → ℕ → ControlState
make xlen isa_word =
    let s = reset xlen in store s id_misa (bit_or (read_internal s id_misa) isa_word)

-- The number of the lowest interrupt that is enabled and pending, 0 where there is none.
-- `count_leading_zero_bits` is `qCountLeadingZeroBits` on 64 bits.
unfoldable pub irq_to_signal : (ℕ → ℕ) → ℕ → ℕ
irq_to_signal count_leading_zero_bits irqs =
    if irqs == 0
    then 0
    else 63 - count_leading_zero_bits (bit_and irqs ((bit_not irqs + 1) % 2 ^ 64))

unfoldable pub cause_value : (ℕ → ℕ) → ControlState → ExceptionCause → PrivilegeLevel → ℕ
cause_value count_leading_zero_bits s excause to_privlev =
    let enabled = read_internal s (if is_supervisor to_privlev then id_sie else id_mie) in
    let pending = read_internal s (if is_supervisor to_privlev then id_sip else id_mip) in
    let irqs = bit_and (bit_and enabled pending) 0xffffffff in
    if is_interrupt excause
    then bit_or (irq_to_signal count_leading_zero_bits irqs)
        (if is_32 s.xlen then 2 ^ 31 else 2 ^ 63)
    else cause_number excause

unfoldable pub update_exception_cause :
    (ℕ → ℕ) → ControlState → ExceptionCause → PrivilegeLevel → ControlState
update_exception_cause count_leading_zero_bits s excause to_privlev =
    store s (if is_machine to_privlev then id_mcause else id_scause)
      (cause_value count_leading_zero_bits s excause to_privlev)

unfoldable pub set_interrupt_signal : ControlState → ℕ → Bool → ControlState
set_interrupt_signal s irq_num active =
    let bit = 2 ^ irq_num in
    let old = read_internal s id_mip in
    let mip = if active then bit_or old bit else bit_and old (bit_not bit) in
    let pending = store s id_mip mip in
    if leb 32 irq_num
    then s
    else store pending id_sip (bit_and mip (read_internal pending id_mideleg))

unfoldable pub core_interrupt_request : ControlState → PrivilegeLevel → ExceptionCause
core_interrupt_request s current_priv =
    let m_pending = bit_and (read_internal s id_mip) (read_internal s id_mie) in
    let s_pending = bit_and (read_internal s id_sip) (read_internal s id_sie) in
    let m_enabled =
      ltb (level_number current_priv) 3
      || (is_machine current_priv && not (read_field s id_mstatus mie == 0)) in
    let s_enabled =
      ltb (level_number current_priv) 1
      || (is_supervisor current_priv && not (read_field s id_mstatus sie == 0)) in
    if not (m_pending == 0) && m_enabled
    then ExceptionCause.int_m
    else if not (s_pending == 0) && s_enabled
    then ExceptionCause.int_s
    else ExceptionCause.none

unfoldable pub exception_initiate : ControlState → PrivilegeLevel → PrivilegeLevel → ControlState
exception_initiate s act_privlev PrivilegeLevel.machine =
    let a = write_field s id_mstatus mpie (read_field s id_mstatus mie % 2 ^ 32) in
    let b = write_field a id_mstatus mie 0 in
    write_field b id_mstatus mpp (level_number act_privlev)
exception_initiate s act_privlev _ =
    let a = write_field s id_sstatus spie (read_field s id_sstatus sie % 2 ^ 32) in
    let b = write_field a id_sstatus sie 0 in
    write_field b id_sstatus spp (if is_supervisor act_privlev then 1 else 0)

-- The three assignments of a return, with the level that they restore.
unfoldable pub return_fields : ControlState → PrivilegeLevel → ControlState × PrivilegeLevel
return_fields s PrivilegeLevel.machine =
    let a = write_field s id_mstatus mie (read_field s id_mstatus mpie) in
    let b = write_field a id_mstatus mpie 1 in
    (write_field b id_mstatus mpp 0, level_of_number (bit_and (read_field b id_mstatus mpp) 3))
return_fields s PrivilegeLevel.supervisor =
    let a = write_field s id_mstatus sie (read_field s id_mstatus spie) in
    let b = write_field a id_mstatus spie 1 in
    (
      write_field b id_mstatus spp 0,
      if bit_and (read_field b id_mstatus spp) 1 == 1
          then PrivilegeLevel.supervisor
          else PrivilegeLevel.unprivileged,
    )
return_fields s _ = (s, PrivilegeLevel.unprivileged)

-- A return from machine mode to a lower level clears `MPRV`.
abbrev pub clear_mprv :
    PrivilegeLevel → ControlState × PrivilegeLevel → ControlState × PrivilegeLevel
clear_mprv act_privlev (s, restored) =
    let lower : ControlState × PrivilegeLevel = (write_field s id_mstatus mprv 0, restored) in
    if is_machine act_privlev && not (is_machine restored) then lower else (s, restored)

unfoldable pub exception_return :
    ControlState → PrivilegeLevel → PrivilegeLevel → ControlState × PrivilegeLevel
exception_return s act_privlev xret_privlev = clear_mprv act_privlev (return_fields s xret_privlev)

unfoldable pub exception_pc_address : ControlState → PrivilegeLevel → ℕ
exception_pc_address s to_privlev =
    read_internal s (if is_supervisor to_privlev then id_stvec else id_mtvec)
