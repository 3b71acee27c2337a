-- ===== src/Protocol/Flags/Lanes.antt =====
-- PacketFlags.h: the lanes and their numbers.
use net_link.Common.{◌≡◌, refl, sym, ap, ◌∙◌, true, false, ==_iff, arith}
use net_link.Protocol.Flags.{Lane, control, reliable, bulk, media, lane_value, lane_of, lane_eq}

lane_of-lane_value : (l : Lane) → lane_of (lane_value l) ≡ l
lane_of-lane_value control = refl
lane_of-lane_value reliable = refl
lane_of-lane_value bulk = refl
lane_of-lane_value media = refl

pub lane_eq_sound : (l l' : Lane) → lane_eq l l' ≡ true → l ≡ l'
lane_eq_sound l l' e =
    sym (lane_of-lane_value l)
    ∙ ap lane_of ((==_iff (lane_value l) (lane_value l')).0 e)
    ∙ lane_of-lane_value l'

pub lane_eq_refl : (l : Lane) → lane_eq l l ≡ true
lane_eq_refl control = refl
lane_eq_refl reliable = refl
lane_eq_refl bulk = refl
lane_eq_refl media = refl

pub lane_eq_symm : (l l' : Lane) → lane_eq l l' ≡ false → lane_eq l' l ≡ false
lane_eq_symm l l' e = ground arith
