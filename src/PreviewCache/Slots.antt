-- ===== src/PreviewCache/Slots.antt =====
-- What the encoder and the sessions may rely on.
use nodus_vision.Prelude.{
  ℕ, ◌≡◌, sym, subst, ◌⊎◌, ◌↔◌, inl, inr, refl, true, false, Option, none, some, is_empty, arith,
}
use mathlib.Core.Option.{some-injective}
use nodus_vision.Prelude.Int.{ℤ}
use nodus_vision.Camera.Order.{Newer, is_strictly_after, is_strictly_after_iff}
use nodus_vision.PreviewCache.{
  PreviewKind, EncodedPreview, Cache, slot, publish_preview, replaces, acquire_preview,
  acquire_fresh_preview, invalidate_generation, clear,
}

-- What both slots hold: an encoded image that is not empty.
abbrev pub HoldsImage : Option EncodedPreview → Type 0
HoldsImage none = Unit
HoldsImage (some p) = is_empty p.jpeg ≡ false

abbrev pub IsValid : Cache → Type 0
IsValid c = HoldsImage c.color_preview.preview × HoldsImage c.depth_preview.preview

-- What the encoder thread does to the cache.
pub data Op : Type 0 where
  publish : ℕ → PreviewKind → Option EncodedPreview → Op
  invalidate : ℕ → Op
  clears : Op

pub apply : Cache → Op → Cache
apply c (publish now kind preview) = (publish_preview c now kind preview).0
apply c (invalidate generation) = invalidate_generation c generation
apply c clears = clear c

HoldsImage-invalidate : (g : ℕ) (c : Cache) → IsValid c → IsValid (invalidate_generation c g)
unfolding invalidate_generation
HoldsImage-invalidate g c v = ground arith

HoldsImage-publish :
    (c : Cache) (now : ℕ) (kind : PreviewKind) (p : Option EncodedPreview)
    → IsValid c
    → IsValid (publish_preview c now kind p).0
unfolding publish_preview
HoldsImage-publish c now kind p v = ground arith

-- No operation of the encoder puts an empty image in a slot.
pub apply-IsValid : (c : Cache) (op : Op) → IsValid c → IsValid (apply c op)
unfolding apply clear
apply-IsValid c (publish now kind preview) v = HoldsImage-publish c now kind preview v
apply-IsValid c (invalidate generation) v = HoldsImage-invalidate generation c v
apply-IsValid c clears v = (tt, tt)

abbrev pub Yields : Option EncodedPreview → EncodedPreview → Type 0
Yields o p =
    (o ≡ none) ⊎ ((held : EncodedPreview) × (o ≡ some held) × Newer p.identity held.identity)

replaces_iff : (o : Option EncodedPreview) (p : EncodedPreview) → (replaces o p ≡ true) ↔ Yields o p
unfolding replaces
replaces_iff none p = ground arith
replaces_iff (some held) p = (forth, back)
  where
    forth : is_strictly_after p.identity held.identity ≡ true → Yields (some held) p
    forth h = inr (held, refl, (is_strictly_after_iff p.identity held.identity).0 h)

    back : Yields (some held) p → is_strictly_after p.identity held.identity ≡ true
    back (inl e) = cc e
    back (inr (h, e, n)) = (is_strictly_after_iff p.identity held.identity).1 (
        subst (λ (x : EncodedPreview). Newer p.identity x.identity) (sym (some-injective held h e))
          n)

-- A publication is taken exactly when the image is not empty and the slot of its kind is empty or
-- holds a preview with an older identity.
pub publish_preview_iff :
    (c : Cache) (now : ℕ) (kind : PreviewKind) (p : EncodedPreview)
    → ((publish_preview c now kind (some p)).1 ≡ true)
      ↔ ((is_empty p.jpeg ≡ false) × Yields (acquire_preview c kind) p)
unfolding publish_preview acquire_preview
publish_preview_iff c now kind p = ground (arith, replaces_iff (slot c kind).preview p)

-- A publication of one kind, taken or not, leaves what a reader of the other kind gets.
pub publish_preview-acquire :
    (c : Cache) (now at : ℕ) (max_age : ℤ) (o : Option EncodedPreview)
    → (acquire_fresh_preview
          (publish_preview c now PreviewKind.color o).0
          at
          PreviewKind.depth
          max_age
        ≡ acquire_fresh_preview c at PreviewKind.depth max_age)
      × (acquire_fresh_preview
            (publish_preview c now PreviewKind.depth o).0
            at
            PreviewKind.color
            max_age
          ≡ acquire_fresh_preview c at PreviewKind.color max_age)
unfolding publish_preview acquire_fresh_preview
publish_preview-acquire c now at max_age o = ground arith

-- After `invalidate_generation g` a reader of either kind gets a preview exactly if the slot held it
-- before and it belongs to generation g.
pub acquire-invalidate :
    (c : Cache) (g : ℕ) (kind : PreviewKind) (p : EncodedPreview)
    → (acquire_preview (invalidate_generation c g) kind ≡ some p)
      ↔ ((acquire_preview c kind ≡ some p) × (p.identity.capture_generation ≡ g))
unfolding acquire_preview invalidate_generation
acquire-invalidate c g kind p = ground arith
