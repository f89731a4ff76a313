-- ===== src/Modbus/RoundTrip.antt =====
-- The register map's addresses do not clash, and its encodings are read back as they were written.
use battery_lab_sim.Prelude.{ℕ, ◌+◌, ◌/◌, ◌<◌, ◌≡◌, refl, ap, some, arith}
use battery_lab_sim.Prelude.Int.{ℤ, pos, negsuc}
use battery_lab_sim.Prelude.Float.{Float}
use battery_lab_sim.Models.{ChannelMode}
use battery_lab_sim.Modbus.{
  ChannelReg, channel_offset, channel_base, channel_reg, chassis_base, channel_block_size,
  ChemistryId, chemistry_value, chemistry_name, chemistry_of_value, chemistry_name_for_id,
  chemistry_id_for_name, mode_value, mode_of_value, encode_f32, decode_f32, to_int16_signed,
  from_int16_signed,
}

pub channel_offset-lt : (r : ChannelReg) → channel_offset r < 50
unfolding channel_offset
channel_offset-lt r = ground arith

pub channel_offset-injective : (r s : ChannelReg) → channel_offset r ≡ channel_offset s → r ≡ s
unfolding channel_offset
channel_offset-injective r s h = ground arith

-- The server finds the channel and the register again from an address that a client computes.
pub channel_reg-decodes :
    (i : ℕ) (r : ChannelReg)
    → (channel_reg i r / channel_block_size ≡ i)
      × (channel_reg i r ≡ channel_base i + channel_offset r)
unfolding channel_reg channel_base
channel_reg-decodes i r = omega (arith, channel_offset-lt r)

-- Two channel registers have the same address only if they are the same register of one channel.
pub channel_reg-injective :
    (i j : ℕ) (r s : ChannelReg) → channel_reg i r ≡ channel_reg j s → (i ≡ j) × (r ≡ s)
unfolding channel_reg channel_base
channel_reg-injective i j r s h =
    ground (arith, channel_offset-lt r, channel_offset-lt s, channel_offset-injective r s)

-- Channels below 200 stay below the chassis registers.
pub channel_reg-lt_chassis : (i : ℕ) (r : ChannelReg) → i < 200 → channel_reg i r < chassis_base
unfolding channel_reg channel_base
channel_reg-lt_chassis i r h = omega (arith, channel_offset-lt r)

-- A signed 16-bit value survives its register.
pub int16_round_trip_pos : (n : ℕ) → n < 32768 → from_int16_signed (to_int16_signed (pos n)) ≡ pos n
unfolding from_int16_signed to_int16_signed
int16_round_trip_pos n h = ground arith

pub int16_round_trip_neg :
    (n : ℕ) → n < 32768 → from_int16_signed (to_int16_signed (negsuc n)) ≡ negsuc n
unfolding from_int16_signed to_int16_signed
int16_round_trip_neg n h = ground arith

abbrev pub IsInt16 : ℤ → Type 0
IsInt16 (pos n) = n < 32768
IsInt16 (negsuc n) = n < 32768

-- A value of the range of int16 is read back from its register as it was written.
pub int16_round_trip : (v : ℤ) → IsInt16 v → from_int16_signed (to_int16_signed v) ≡ v
int16_round_trip (pos n) h = int16_round_trip_pos n h
int16_round_trip (negsuc n) h = int16_round_trip_neg n h

module _ {R : Type 0} ⦃fl : Float R⦄ where
  -- Both words are uint16, and together they are the number that was packed.
  pub encode_f32-bounds : (x : R) → ((encode_f32 x).0 < 65536) × ((encode_f32 x).1 < 65536)
  unfolding encode_f32
  encode_f32-bounds x = omega (arith, fl.pack_f32_lt x)

  pub decode_f32-encode_f32 :
      (x : R) → decode_f32 (encode_f32 x).0 (encode_f32 x).1 ≡ fl.unpack_f32 (fl.pack_f32 x)
  unfolding encode_f32 decode_f32
  decode_f32-encode_f32 x = ap fl.unpack_f32 (omega (arith, fl.pack_f32_lt x))

-- Every mode is read back from its register value.
pub mode_of_value-mode_value : (m : ChannelMode) → mode_of_value (mode_value m) ≡ some m
unfolding mode_of_value mode_value
mode_of_value-mode_value m = ground arith

-- Every chemistry is found again from its wire value and from its name.
pub chemistry_round_trip :
    (c : ChemistryId)
    → (chemistry_of_value (chemistry_value c) ≡ some c)
      × (chemistry_name_for_id (chemistry_value c) ≡ some (chemistry_name c))
      × (chemistry_id_for_name (chemistry_name c) ≡ some (chemistry_value c))
unfolding chemistry_of_value chemistry_name_for_id chemistry_id_for_name
chemistry_round_trip ChemistryId.nmc = (refl, refl, refl)
chemistry_round_trip ChemistryId.lco = (refl, refl, refl)
chemistry_round_trip ChemistryId.nmc_sic = (refl, refl, refl)
chemistry_round_trip ChemistryId.lco_sic = (refl, refl, refl)
