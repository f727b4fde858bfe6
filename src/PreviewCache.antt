-- ===== src/PreviewCache.antt =====
-- src/provider/http/encoded_preview_cache.cpp: the two latest-only slots between the encoder thread
-- and the HTTP sessions. Each call holds the mutex; the steady clock's reading is an argument.
pub mod Slots
mod Tests
use nodus_vision.Prelude.{
  ℕ, ◌*◌, ◌-◌, Bool, true, false, not, ◌&&◌, ◌||◌, Option, none, some, List, Text, is_empty, ltb,
  ◌==◌, if◌then◌else◌,
}
use nodus_vision.Prelude.Int.{ℤ, pos, pos_part, leb_ℤ}
use nodus_vision.Camera.Contracts.{FrameIdentity}
use nodus_vision.Camera.Order.{is_strictly_after}

pub data PreviewKind : Type 0 where
  color depth : PreviewKind

pub record EncodedPreview : Type 0 where
  pub identity : FrameIdentity
  pub jpeg : Text

pub record PreviewSlot : Type 0 where
  pub preview : Option EncodedPreview
  pub published_at : ℕ

abbrev pub empty_slot : PreviewSlot
empty_slot = record { preview = none; published_at = 0 }

pub record Cache : Type 0 where
  pub color_preview : PreviewSlot
  pub depth_preview : PreviewSlot

abbrev pub slot : Cache → PreviewKind → PreviewSlot
slot c PreviewKind.color = c.color_preview
slot c PreviewKind.depth = c.depth_preview

abbrev pub set_slot : Cache → PreviewKind → PreviewSlot → Cache
set_slot c PreviewKind.color s = record c { color_preview = s }
set_slot c PreviewKind.depth s = record c { depth_preview = s }

-- Whether a preview takes the place of what the slot holds.
replaces : Option EncodedPreview → EncodedPreview → Bool
replaces none preview = true
replaces (some held) preview = is_strictly_after preview.identity held.identity

-- `publishPreview`; `none` is a null pointer.
pub publish_preview : Cache → ℕ → PreviewKind → Option EncodedPreview → Cache × Bool
publish_preview c now kind none = (c, false)
publish_preview c now kind (some preview) =
    if is_empty preview.jpeg
    then (c, false)
    else if not (replaces (slot c kind).preview preview)
    then (c, false)
    else (set_slot c kind (record { preview = some preview; published_at = now }), true)

pub acquire_preview : Cache → PreviewKind → Option EncodedPreview
acquire_preview c kind = (slot c kind).preview

-- `acquireFreshPreview`: `max_age` is in milliseconds.
pub acquire_fresh_preview : Cache → ℕ → PreviewKind → ℤ → Option EncodedPreview
acquire_fresh_preview c now kind max_age = elim (slot c kind).preview [
  | none ↦ none
  | some preview ↦
      if leb_ℤ max_age (pos 0)
        || ltb (pos_part max_age * 1_000_000) (now - (slot c kind).published_at)
      then none
      else some preview
]

invalidate_slot : ℕ → PreviewSlot → PreviewSlot
invalidate_slot generation s = elim s.preview [
  | none ↦ s
  | some p ↦ if not (p.identity.capture_generation == generation) then empty_slot else s
]

-- `invalidateGeneration`
pub invalidate_generation : Cache → ℕ → Cache
unfolding invalidate_slot
invalidate_generation c generation = record {
  color_preview = invalidate_slot generation c.color_preview;
  depth_preview = invalidate_slot generation c.depth_preview;
}

-- `clear`
pub clear : Cache → Cache
clear c = record { color_preview = empty_slot; depth_preview = empty_slot }
