-- ===== src/Address/Tests.antt =====
-- Runs of the address arithmetic, and the theorems at concrete addresses.
use svsm.Base.{◌+◌, ◌-◌, ◌*◌, ◌%◌, ◌^◌, ◌≡◌, ◌↔◌, inl, refl, arith}
use svsm.Address.{sign_extend, virt_add, virt_sub, virt_diff, page_offset, to_pgtbl_idx}
use svsm.Address.Canonical.{IsCanonical, sign_extend-IsCanonical}
use svsm.Address.Arith.{virt_diff-virt_add, to_pgtbl_idx-parts}

sign_extend-IsCanonical_example :
    IsCanonical (sign_extend (2 ^ 47))
    × (sign_extend (2 ^ 47) % 2 ^ 48 ≡ 2 ^ 47 % 2 ^ 48)
    × ((sign_extend (2 ^ 47) ≡ 2 ^ 47) ↔ IsCanonical (2 ^ 47))
sign_extend-IsCanonical_example = sign_extend-IsCanonical (2 ^ 47) (omega arith)

virt_diff-virt_add_example :
    (virt_diff (virt_add (2 ^ 47 - 1) 1) (2 ^ 47 - 1) ≡ 1)
    × (virt_sub (virt_add (2 ^ 47 - 1) 1) 1 ≡ 2 ^ 47 - 1)
virt_diff-virt_add_example = virt_diff-virt_add (2 ^ 47 - 1) 1 (inl (omega arith)) (omega arith)

to_pgtbl_idx-parts_example :
    to_pgtbl_idx 3 0x123456789A * 2 ^ 39
      + to_pgtbl_idx 2 0x123456789A * 2 ^ 30
      + to_pgtbl_idx 1 0x123456789A * 2 ^ 21
      + to_pgtbl_idx 0 0x123456789A * 2 ^ 12
      + page_offset 0x123456789A
    ≡ 0x123456789A % 2 ^ 48
to_pgtbl_idx-parts_example = to_pgtbl_idx-parts 0x123456789A

virt_add_run : virt_add (2 ^ 47 - 1) 1 ≡ 2 ^ 64 - 2 ^ 47
unfolding virt_add sign_extend
virt_add_run = refl
