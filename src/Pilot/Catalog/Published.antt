-- ===== src/Pilot/Catalog/Published.antt =====
-- The catalog of src/pilot/vision_endpoint_catalog.cpp is one that the codec publishes.
use nodus_vision.Prelude.{
  ℕ, ◌≡◌, refl, Bool, true, false, List, [], Text, bytes, text_eq, length, ◌^◌, ◌≢◌, ◌<◌, ◌≤◌,
  arith,
}
use nodus_vision.Prelude.Json.{Members}
use nodus_vision.Prelude.Result.{is_ok, ok, ◌>>=◌, Ensures, Ensures-call, bind_ok, bind_is_ok}
use nodus_vision.Config.{VisionConfig}
use nodus_vision.Config.Valid.{IsVisionConfig}
use nodus_vision.Geometry.{DoubleArithmetic, build_camera_mount_transform}
use nodus_vision.Geometry.Mounted.{IsRigid, build_camera_mount_transform-is_ok}
use nodus_vision.Pilot.{VisionEndpointCatalog}
use nodus_vision.Pilot.Identifiers.{text_less, validate_identifier}
use nodus_vision.Pilot.Codec.{
  is_sorted, has_adjacent_equal, serialize_capabilities, is_descriptor_incomplete,
  serialize_catalog_publication_request,
}
use nodus_vision.Pilot.Catalog.{
  collect_descriptors, catalog_of, build_catalog, is_color_enabled, build_vision_static_metadata,
}
use nodus_vision.Pilot.Catalog.Accepting.{
  Chain, Chain-is_ok, endpoint_given, identifier_ok, publication_is_ok,
}

capabilities-is_sorted :
    (config : VisionConfig) (metadata : Members) (color recording : Bool)
    → is_sorted (catalog_of (collect_descriptors config metadata color recording)).capabilities
      ≡ true
unfolding is_sorted catalog_of collect_descriptors bytes
capabilities-is_sorted config metadata true true = refl
capabilities-is_sorted config metadata true false = refl
capabilities-is_sorted config metadata false true = refl
capabilities-is_sorted config metadata false false = refl

capabilities-has_adjacent_equal :
    (config : VisionConfig) (metadata : Members) (color recording : Bool)
    → has_adjacent_equal
        (catalog_of (collect_descriptors config metadata color recording)).capabilities
      ≡ false
unfolding has_adjacent_equal text_eq catalog_of collect_descriptors bytes
capabilities-has_adjacent_equal config metadata true true = refl
capabilities-has_adjacent_equal config metadata true false = refl
capabilities-has_adjacent_equal config metadata false true = refl
capabilities-has_adjacent_equal config metadata false false = refl

capabilities-is_ok :
    (config : VisionConfig) (metadata : Members) (color recording : Bool)
    → is_ok (
        serialize_capabilities
          (catalog_of (collect_descriptors config metadata color recording)).capabilities)
      ≡ true
unfolding serialize_capabilities validate_identifier catalog_of collect_descriptors bytes
capabilities-is_ok config metadata true true = refl
capabilities-is_ok config metadata true false = refl
capabilities-is_ok config metadata false true = refl
capabilities-is_ok config metadata false false = refl

descriptors-Chain :
    (config : VisionConfig) (metadata : Members) (color recording : Bool)
    → Chain [] (catalog_of (collect_descriptors config metadata color recording)).descriptors
unfolding catalog_of collect_descriptors bytes text_less validate_identifier
    is_descriptor_incomplete
descriptors-Chain config metadata true true =
    let url = config.provider.advertised_base_url in
    (
      refl,
      (refl, refl, endpoint_given url _ _),
      (
        refl,
        (refl, refl, endpoint_given url _ _),
        (
          refl,
          (refl, refl, endpoint_given url _ _),
          (
            refl,
            (refl, refl, endpoint_given url _ _),
            (
              refl,
              (refl, refl, endpoint_given url _ _),
              (
                refl,
                (refl, refl, endpoint_given url _ _),
                (
                  refl,
                  (refl, refl, endpoint_given url _ _),
                  (
                    refl,
                    (refl, refl, endpoint_given url _ _),
                    (
                      refl,
                      (refl, refl, endpoint_given url _ _),
                      (
                        refl,
                        (refl, refl, endpoint_given url _ _),
                        (
                          refl,
                          (refl, refl, endpoint_given url _ _),
                          (refl, (refl, refl, endpoint_given url _ _), tt),
                        ),
                      ),
                    ),
                  ),
                ),
              ),
            ),
          ),
        ),
      ),
    )
descriptors-Chain config metadata true false =
    let url = config.provider.advertised_base_url in
    (
      refl,
      (refl, refl, endpoint_given url _ _),
      (
        refl,
        (refl, refl, endpoint_given url _ _),
        (
          refl,
          (refl, refl, endpoint_given url _ _),
          (
            refl,
            (refl, refl, endpoint_given url _ _),
            (
              refl,
              (refl, refl, endpoint_given url _ _),
              (
                refl,
                (refl, refl, endpoint_given url _ _),
                (
                  refl,
                  (refl, refl, endpoint_given url _ _),
                  (
                    refl,
                    (refl, refl, endpoint_given url _ _),
                    (refl, (refl, refl, endpoint_given url _ _), tt),
                  ),
                ),
              ),
            ),
          ),
        ),
      ),
    )
descriptors-Chain config metadata false true =
    let url = config.provider.advertised_base_url in
    (
      refl,
      (refl, refl, endpoint_given url _ _),
      (
        refl,
        (refl, refl, endpoint_given url _ _),
        (
          refl,
          (refl, refl, endpoint_given url _ _),
          (
            refl,
            (refl, refl, endpoint_given url _ _),
            (
              refl,
              (refl, refl, endpoint_given url _ _),
              (
                refl,
                (refl, refl, endpoint_given url _ _),
                (
                  refl,
                  (refl, refl, endpoint_given url _ _),
                  (
                    refl,
                    (refl, refl, endpoint_given url _ _),
                    (
                      refl,
                      (refl, refl, endpoint_given url _ _),
                      (refl, (refl, refl, endpoint_given url _ _), tt),
                    ),
                  ),
                ),
              ),
            ),
          ),
        ),
      ),
    )
descriptors-Chain config metadata false false =
    let url = config.provider.advertised_base_url in
    (
      refl,
      (refl, refl, endpoint_given url _ _),
      (
        refl,
        (refl, refl, endpoint_given url _ _),
        (
          refl,
          (refl, refl, endpoint_given url _ _),
          (
            refl,
            (refl, refl, endpoint_given url _ _),
            (
              refl,
              (refl, refl, endpoint_given url _ _),
              (
                refl,
                (refl, refl, endpoint_given url _ _),
                (refl, (refl, refl, endpoint_given url _ _), tt),
              ),
            ),
          ),
        ),
      ),
    )

abbrev pub Capable : List Text → Type 0
Capable capabilities =
    (is_sorted capabilities ≡ true)
    × (has_adjacent_equal capabilities ≡ false)
    × (is_ok (serialize_capabilities capabilities) ≡ true)

-- The capabilities of a catalog are sorted, different and identifiers.
pub build_catalog-capabilities :
    (config : VisionConfig) (a : DoubleArithmetic)
    → Ensures (λ catalog. Capable catalog.capabilities) (build_catalog config a)
unfolding build_catalog
build_catalog-capabilities config a =
    Ensures-call (λ catalog. Capable catalog.capabilities) (build_vision_static_metadata config a)
      (λ _. ok _)
      (λ metadata _. (
        capabilities-is_sorted config metadata (is_color_enabled config) config.recording.enabled,
        capabilities-has_adjacent_equal config metadata (is_color_enabled config)
            config.recording.enabled,
        capabilities-is_ok config metadata (is_color_enabled config) config.recording.enabled,
      ))

pub build_catalog-is_ok :
    (config : VisionConfig) (a : DoubleArithmetic)
    → IsVisionConfig config
    → IsRigid a config.calibration
    → is_ok (build_catalog config a) ≡ true
unfolding build_catalog build_vision_static_metadata
build_catalog-is_ok config a valid rigid = bind_ok (build_vision_static_metadata config a) _ (
    bind_ok (build_camera_mount_transform a config.calibration) _
      (build_camera_mount_transform-is_ok a config.calibration (valid.3) rigid))

-- Of a configuration that the parser accepted the catalog is built, where the rounding of the mount
-- matrix stays within the tolerance of its check, and the codec accepts that catalog for publication,
-- under an identifier and with a generation in the public range: its descriptors are strictly sorted
-- and complete.
pub build_catalog-accepted :
    (config : VisionConfig) (a : DoubleArithmetic) (publication_id : Text) (generation : ℕ)
    → IsVisionConfig config
    → IsRigid a config.calibration
    → publication_id ≢ []
    → length publication_id ≤ 128
    → generation < 2 ^ 63
    → is_ok (
        build_catalog config a >>= (λ catalog.
          serialize_catalog_publication_request publication_id generation catalog.descriptors))
      ≡ true
build_catalog-accepted config a publication_id generation valid rigid given short fits =
    let P : VisionEndpointCatalog → Type 0 = λ catalog.
      is_ok (serialize_catalog_publication_request publication_id generation catalog.descriptors)
      ≡ true in
    bind_is_ok (build_catalog config a) _ (build_catalog-is_ok config a valid rigid) (
      unfold build_catalog in
      Ensures-call P (build_vision_static_metadata config a) (λ _. ok _)
        (λ metadata _.
          publication_is_ok publication_id generation _ (identifier_ok publication_id _ given short)
            (ground arith)
            (Chain-is_ok [] _ (
              descriptors-Chain config metadata (is_color_enabled config)
                config.recording.enabled))))
