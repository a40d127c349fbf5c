-- ===== src/Moon/Serializer.antt =====
-- internal/adapters/moon/writeback.go and moon.go: the writer of a payload, and `WriteProgress`, which
-- asks the registry of writers first.
use readsync.Base.{
  Bool, false, ◌||◌, List, [], ◌∷◌, ◌++◌, Option, none, some, Text, codes, if◌then◌else◌, not,
}
use readsync.Base.Double.{Double}
use readsync.Base.Strings.{cut_last}
use readsync.Moon.{Format, format_eq, FloatText, Result}

-- An entry of the registry, its texts left out.
pub record WriterRegistryEntry : Type 0 where
  pub format : Format
  pub verified : Bool

abbrev pub writer_registry : List WriterRegistryEntry
writer_registry = record { format = Format.v1_plain; verified = false } ∷ []

abbrev pub lookup_writer : Format → List WriterRegistryEntry → Bool
lookup_writer f [] = false
lookup_writer f (w ∷ ws) = if format_eq w.format f then w.verified else lookup_writer f ws

abbrev pub is_writer_verified : Format → Bool
is_writer_verified f = lookup_writer f writer_registry

pub data SerializeError : Type 0 where
  format_mismatch percent_out_of_range no_colon : SerializeError

pub data Serialized : Type 0 where
  refused : SerializeError → Serialized
  payload : Text → Serialized

pub data WriteError : Type 0 where
  writeback_disabled writeback_unsafe not_implemented : WriteError

-- `WriteProgress`, which returns no other result than an error.
abbrev pub write_progress : Bool → WriteError
write_progress allow_writeback =
    if not allow_writeback
    then writeback_disabled
    else if not (is_writer_verified Format.v1_plain)
    then writeback_unsafe
    else not_implemented

module _ {W : Type 0} ⦃d : Double W⦄ where
  -- The new percentage as it is written.
  abbrev pub written_percent : W → W
  written_percent new_percent =
      d.mul (if d.lt (d.lit 1 0) new_percent then d.lit 1 0 else new_percent) (d.lit 100 0)

  abbrev pub with_prefix : FloatText W → W → Option (Text × Text) → Serialized
  with_prefix f new_percent none = refused no_colon
  with_prefix f new_percent (some (prefix, _)) =
      payload (prefix ++ b':' ∷ (f.format (written_percent new_percent) ++ codes "%"))

  -- `SerializeV1Plain`.
  unfoldable pub serialize_v1_plain : FloatText W → Result W → W → Serialized
  serialize_v1_plain f r new_percent =
      if not (format_eq r.format Format.v1_plain)
      then refused format_mismatch
      else if d.lt new_percent (d.lit 0 0) || d.lt (d.lit 10001 4) new_percent
      then refused percent_out_of_range
      else with_prefix f new_percent (cut_last b':' r.position)
