-- ===== src/Apic/Access.antt =====
-- The guest's reads and writes of APIC registers. `Err(Emulation)` is `none`; the state that an
-- error leaves is kept, as it can have changed before.
use svsm.Base.{
  ℕ, ◌-◌, Bool, true, false, ◌&&◌, ◌==◌, leb, ltb, if◌then◌else◌, Option, none, some, get_elem?,
  Run, done, ◌>>=◌, unwrap,
}
use svsm.Apic.State.{
  IcrMessageType, fixed, unknown, nmi, init, sipi, ext_int, icr_message_type, GuestCpuState,
  Machine,
}
use svsm.Apic.Service.{get_ppr, check_delivered_interrupts, get_isr, perform_eoi}
use svsm.Apic.Post.{post_interrupt, send_ipi}

abbrev in_range : ℕ → ℕ → ℕ → Bool
in_range first last register = leb first register && leb register last

-- The message types that the emulation takes.
unfoldable pub is_valid_type : IcrMessageType → Bool
is_valid_type fixed = true
is_valid_type nmi = true
is_valid_type unknown = false
is_valid_type init = false
is_valid_type sipi = false
is_valid_type ext_int = false

module _ {C : Type 0} (ops : GuestCpuState C) (specific_eoi : ℕ → Bool) (apic_id : ℕ) where
  -- The value of a register once interrupts have been rewound.
  unfoldable pub read_value : Machine C → ℕ → Run (Option ℕ)
  read_value m register =
      if register == 0x830
      then done (some m.apic.icr)
      else (if register == 0x802
          then done (some apic_id)
          else (if in_range 0x820 0x827 register
              then (unwrap (get_elem? m.apic.irr (register - 0x820)) >>= λ irr. done (some irr))
              else (if in_range 0x810 0x817 register
                  then done (some (get_isr m.apic (register - 0x810)))
                  else (if in_range 0x818 0x81F register
                      then (unwrap (get_elem? m.apic.tmr (register - 0x818)) >>= λ tmr.
                          done (some tmr))
                      else (if register == 0x808
                          then done (some (ops.get_tpr m.cpu))
                          else (if register == 0x80A
                              then (get_ppr ops m.apic m.cpu >>= λ ppr. done (some ppr))
                              else done none))))))

  unfoldable pub read_register : Machine C → ℕ → Run (Machine C × Option ℕ)
  read_register m register = do
    m ← check_delivered_interrupts ops specific_eoi m
    value ← read_value m register
    done (m, value)

  unfoldable pub handle_icr_write : Machine C → ℕ → Machine C × Bool
  handle_icr_write m value =
      if is_valid_type (icr_message_type value)
      then (send_ipi apic_id (record m { apic = record m.apic { icr = value } }) value, true)
      else (m, false)

  -- The effect of a write, and whether it is allowed.
  unfoldable pub write_value : Machine C → ℕ → ℕ → Run (Machine C × Bool)
  write_value m register value =
      if register == 0x808
      then done
          (if ltb value 256 then (record m { cpu = ops.set_tpr m.cpu value }, true) else (m, false))
      else (if register == 0x80B
          then (perform_eoi specific_eoi m.apic m.host_eois >>= λ out.
              done (record m { apic = out.0; host_eois = out.1 }, true))
          else (if register == 0x830
              then done (handle_icr_write m value)
              else (if register == 0x83F
                  then done (
                      if ltb value 256
                      then (record m { apic = post_interrupt m.apic value false }, true)
                      else (m, false))
                  else done (m, false))))

  unfoldable pub write_register : Machine C → ℕ → ℕ → Run (Machine C × Bool)
  write_register m register value = do
    m ← check_delivered_interrupts ops specific_eoi m
    write_value m register value
