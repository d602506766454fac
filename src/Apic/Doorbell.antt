-- ===== src/Apic/Doorbell.antt =====
-- Consuming the host's interrupts: which vectors become pending.
use svsm.Base.{ℕ, ◌^◌, Bool, ◌==◌, ◌&&◌, ◌||◌, not, if◌then◌else◌, Option, List, [], ◌∷◌}
use svsm.Apic.State.{LocalApic}
use svsm.Apic.Host.{
  HvExtIntInfo, vector_31, pending_vector, level_sensitive, multiple_vectors, without, found,
}
use svsm.Apic.Posting.{only, in_words}

-- The status at which the exchange for a level-sensitive vector succeeds: the first that is there
-- unchanged since it was seen, or the last.
abbrev pub settled : List ℕ → ℕ → ℕ
settled [] flags = flags
settled (status ∷ stores) flags = if status == flags then flags else settled stores status

-- What is known of the status once a level-sensitive vector is taken,
abbrev pub flags_after : List ℕ → ℕ → ℕ
flags_after stores status =
    if level_sensitive status
    then without (2 ^ 10) (without 0xFF (settled stores status))
    else status

-- and that vector.
abbrev pub level_vector : LocalApic → List ℕ → ℕ → ℕ → Bool
level_vector a stores status w =
    level_sensitive status && only a (pending_vector (settled stores status)) w

-- The vectors of the words, and vector 31 by its flag,
abbrev pub many_vectors : LocalApic → List ℕ → ℕ → ℕ → Bool
many_vectors a words flags w = in_words a 1 words w || vector_31 flags && only a 31 w

-- or one vector, if the status has not changed meanwhile.
abbrev pub single_vector : LocalApic → ℕ → ℕ → ℕ → Bool
single_vector a flags status w =
    not (pending_vector flags == 0) && status == flags && only a (pending_vector flags) w

-- The vectors that become pending: the level-sensitive one; and those of the words if the status then
-- says that there are many, or else the one in the status.
abbrev pub consumed : LocalApic → HvExtIntInfo → List ℕ → Option ℕ → ℕ → Bool
consumed a d stores late w =
    let flags = flags_after stores d.status in
    (if multiple_vectors flags
      then many_vectors a d.irr flags w
      else single_vector a flags (found late flags) w)
    || level_vector a stores d.status w
