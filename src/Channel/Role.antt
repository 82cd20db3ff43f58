-- ===== src/Channel/Role.antt =====
-- Roles of data channels, from src/rtc/datachannel/rtc_channel.h and rtc_channel.cpp.
use pi_webrtc.Prelude.{
  ℕ, ◌≡◌, refl, ◌↔◌, subst, String, Bool, true, false, Option, none, some, ◌==◌, ==_iff, string_eq,
  if◌then◌else◌, arith,
}

pub data ChannelRole : Type 0 where
  command stream lossy reliable : ChannelRole

-- The fields of `webrtc::DataChannelInit` that the program sets; `none` leaves the default.
pub record DataChannelInit : Type 0 where
  pub ordered : Bool
  pub max_retransmits : Option ℕ
  pub negotiated : Bool
  pub id : Option ℕ

-- webrtc's defaults: ordered, reliable, announced in-band.
abbrev pub default_init : DataChannelInit
default_init = record { ordered = true; max_retransmits = none; negotiated = false; id = none }

unfoldable pub role_init : ChannelRole → DataChannelInit
role_init command = record default_init { ordered = true }
role_init reliable = record default_init { ordered = true }
role_init stream = record default_init { ordered = false }
role_init lossy = record default_init { ordered = false; max_retransmits = some 0 }

unfoldable pub role_label : ChannelRole → String
role_label command = "command"
role_label stream = "stream"
role_label lossy = "_lossy"
role_label reliable = "_reliable"

unfoldable pub role_from_label : String → Option ChannelRole
unfolding role_label
role_from_label label =
    if role_label command == label
    then some command
    else if role_label stream == label
    then some stream
    else if role_label lossy == label
    then some lossy
    else if role_label reliable == label
    then some reliable
    else none

unfoldable pub role_id : ChannelRole → ℕ
role_id command = 0
role_id stream = 1
role_id lossy = 2
role_id reliable = 3

from_label-label : (r : ChannelRole) → role_from_label (role_label r) ≡ some r
unfolding role_from_label
from_label-label command = refl
from_label-label stream = refl
from_label-label lossy = refl
from_label-label reliable = refl

label-from_label : (r : ChannelRole) (l : String) → role_from_label l ≡ some r → role_label r ≡ l
unfolding role_from_label
label-from_label r l h = ground (
  arith,
  ==_iff (role_label command) l,
  ==_iff (role_label stream) l,
  ==_iff (role_label lossy) l,
  ==_iff (role_label reliable) l,
)

-- `RoleFromLabel` finds a role exactly at that role's label, so every role is found again from
-- its label and no other label names it.
pub role_from_label-role_label :
    (r : ChannelRole) (l : String) → (role_from_label l ≡ some r) ↔ (role_label r ≡ l)
role_from_label-role_label r l =
    (label-from_label r l, λ h. subst (λ x. role_from_label x ≡ some r) h (from_label-label r))
