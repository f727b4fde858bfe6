-- ===== src/PreviewCache/Tests.antt =====
-- The preview cache on concrete images.
use nodus_vision.Prelude.{◌≡◌, ◌↔◌, refl, true, false, some, [], ◌∷◌, is_empty}
use nodus_vision.Prelude.Int.{pos}
use nodus_vision.Camera.Samples.{identity_of}
use nodus_vision.PreviewCache.{
  PreviewKind, EncodedPreview, Cache, empty_slot, publish_preview, acquire_preview,
  acquire_fresh_preview, invalidate_generation,
}
use nodus_vision.PreviewCache.Slots.{
  IsValid, Yields, invalidate, apply, apply-IsValid, publish_preview_iff, publish_preview-acquire,
  acquire-invalidate,
}

abbrev image : EncodedPreview
image = record { identity = identity_of 1 4; jpeg = 0xFF ∷ 0xD8 ∷ [] }

abbrev newer_image : EncodedPreview
newer_image = record { identity = identity_of 2 1; jpeg = 0xFF ∷ 0xD8 ∷ 0xFF ∷ [] }

abbrev cache : Cache
cache = record {
  color_preview = record { preview = some image; published_at = 10 };
  depth_preview = empty_slot;
}

replaced : (publish_preview cache 20 PreviewKind.color (some newer_image)).1 ≡ true
unfolding publish_preview nodus_vision.PreviewCache.replaces
    nodus_vision.Camera.Order.is_strictly_after
replaced = refl

apply-IsValid_example : IsValid (apply cache (invalidate 2))
apply-IsValid_example = apply-IsValid cache (invalidate 2) (refl, tt)

publish_preview_iff_example :
    ((publish_preview cache 20 PreviewKind.color (some newer_image)).1 ≡ true) ↔ (
      (is_empty newer_image.jpeg ≡ false)
      × Yields (acquire_preview cache PreviewKind.color) newer_image)
publish_preview_iff_example = publish_preview_iff cache 20 PreviewKind.color newer_image

publish_preview-acquire_example :
    (acquire_fresh_preview
        (publish_preview cache 20 PreviewKind.color (some newer_image)).0
        30
        PreviewKind.depth
        (pos 5)
      ≡ acquire_fresh_preview cache 30 PreviewKind.depth (pos 5))
    × (acquire_fresh_preview
          (publish_preview cache 20 PreviewKind.depth (some newer_image)).0
          30
          PreviewKind.color
          (pos 5)
        ≡ acquire_fresh_preview cache 30 PreviewKind.color (pos 5))
publish_preview-acquire_example = publish_preview-acquire cache 20 30 (pos 5) (some newer_image)

acquire-invalidate_example :
    (acquire_preview (invalidate_generation cache 2) PreviewKind.color ≡ some image) ↔ (
      (acquire_preview cache PreviewKind.color ≡ some image)
      × (image.identity.capture_generation ≡ 2))
acquire-invalidate_example = acquire-invalidate cache 2 PreviewKind.color image
