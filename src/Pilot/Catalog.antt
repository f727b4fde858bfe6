-- ===== src/Pilot/Catalog.antt =====
-- `VisionEndpointCatalogBuilder` of src/pilot/vision_endpoint_catalog.cpp. Where the mount transform
-- of the metadata is refused, the exception leaves `buildVisionStaticMetadata` and `buildCatalog`.
pub mod Published
pub mod Accepting
use nodus_vision.Prelude.{
  ℕ, ◌-◌, Bool, true, false, ◌||◌, Option, none, some, List, [], ◌∷◌, ◌++◌, map, Text, bytes,
  text_eq, length, take, get_elem?, ◌==◌, if◌then◌else◌,
}
use nodus_vision.Prelude.Json.{
  Json, string, floating, array, Items, no_items, item, Members, no_members, member,
}
use nodus_vision.Prelude.Result.{Result, ok, ◌>>=◌}
use nodus_vision.Geometry.{DoubleArithmetic, CameraMountTransform, build_camera_mount_transform}
use nodus_vision.Config.{VisionConfig}
use nodus_vision.Pilot.{PilotEndpointDescriptor, VisionEndpointCatalog}
use nodus_vision.Pilot.Identifiers.{text_less}

ends_with_slash : Text → Bool
ends_with_slash [] = false
ends_with_slash (b ∷ []) = b == 47
ends_with_slash (b ∷ c ∷ rest) = ends_with_slash (c ∷ rest)

-- Of a URL that is not empty, as an advertised one is: `back` is of its last byte.
unfoldable pub make_endpoint : Text → Text → Text
unfolding ends_with_slash
make_endpoint base_url path =
    if ends_with_slash base_url
    then take (length base_url - 1) base_url ++ path
    else base_url ++ path

-- `descriptor.service` and `descriptor.stream` are empty where the source leaves them.
unfoldable pub make_service :
    VisionConfig
    → Members
    → Text
    → Text
    → Text
    → Text
    → Text
    → Text
    → Text
    → PilotEndpointDescriptor
unfolding make_endpoint
make_service config metadata descriptor_id capability path media_type schema_id method request =
    record {
      descriptor_id = descriptor_id;
      kind = bytes "service";
      capability = capability;
      contract_version = 1;
      endpoint = make_endpoint config.provider.advertised_base_url path;
      media_type = media_type;
      schema_id = schema_id;
      metadata = metadata;
      is_stream = false;
      service = record {
        method = method;
        request_schema_id = request;
        response_schema_id = schema_id;
      };
      stream = record { clock_domain = []; stream_group_id = [] };
    }

unfoldable pub make_stream :
    VisionConfig → Members → Text → Text → Text → Text → PilotEndpointDescriptor
unfolding make_endpoint
make_stream config metadata descriptor_id capability path schema_id = record {
  descriptor_id = descriptor_id;
  kind = bytes "stream";
  capability = capability;
  contract_version = 1;
  endpoint = make_endpoint config.provider.advertised_base_url path;
  media_type = bytes "multipart/x-mixed-replace";
  schema_id = schema_id;
  metadata = metadata;
  is_stream = true;
  service = record { method = []; request_schema_id = []; response_schema_id = [] };
  stream = record {
    clock_domain = bytes "monotonic_same_host";
    stream_group_id = config.component_id ++ bytes ".capture";
  };
}

unfoldable pub is_color_enabled : VisionConfig → Bool
is_color_enabled config = text_eq config.adapter (bytes "fake") || config.intel_d435.enable_color

make_matrix : List ℕ → Items
make_matrix [] = no_items
make_matrix (x ∷ xs) = item (floating x) (make_matrix xs)

static_metadata : VisionConfig → CameraMountTransform → Members
unfolding make_matrix
static_metadata config transform = member (bytes "device_id") (string config.device_id) (
    member (bytes "sensor_frame") (string transform.sensor_frame) (
      member (bytes "mount_frame") (string transform.mount_frame) (
        member (bytes "calibration_id") (string transform.calibration_id) (
          member (bytes "mount_from_camera_optical_matrix4x4")
            (array (make_matrix transform.mount_from_camera_optical_matrix4x4))
            (member (bytes "api_version") (string (bytes "1.3.0")) no_members)))))

unfoldable pub build_vision_static_metadata : VisionConfig → DoubleArithmetic → Result Members
unfolding build_camera_mount_transform static_metadata
build_vision_static_metadata config arithmetic = do
  transform ← build_camera_mount_transform arithmetic config.calibration
  ok (static_metadata config transform)

depth_descriptors : VisionConfig → Members → List PilotEndpointDescriptor
unfolding make_service make_stream
depth_descriptors config metadata =
    make_service config metadata (bytes "health") (bytes "camera.health.get") (bytes "/health")
      (bytes "application/json") (bytes "nodus.vision.health.response.v1") (bytes "GET") []
    ∷ make_service config metadata (bytes "metadata") (bytes "camera.metadata.get")
        (bytes "/metadata") (bytes "application/json") (bytes "nodus.vision.metadata.response.v1")
        (bytes "GET") []
    ∷ make_stream config metadata (bytes "depth-preview") (bytes "camera.stream.depth.preview")
        (bytes "/stream/depth.mjpg") (bytes "nodus.vision.mjpeg.depth_part.v1")
    ∷ make_service config metadata (bytes "depth-snapshot") (bytes "camera.snapshot.depth.preview")
        (bytes "/snapshot/depth") (bytes "image/jpeg") (bytes "nodus.vision.jpeg.depth_preview.v1")
        (bytes "GET") []
    ∷ make_service config metadata (bytes "roi-depth") (bytes "camera.query.roi_depth")
        (bytes "/query/roi_depth") (bytes "application/json")
        (bytes "nodus.vision.roi_depth.response.v1") (bytes "POST")
        (bytes "nodus.vision.roi_depth.request.v1")
    ∷ make_service config metadata (bytes "pixel-to-point") (bytes "camera.query.pixel_to_point")
        (bytes "/query/pixel_to_point") (bytes "application/json")
        (bytes "nodus.vision.pixel_point.response.v1") (bytes "POST")
        (bytes "nodus.vision.pixel_point.request.v1")
    ∷ make_service config metadata (bytes "pointcloud-binary") (bytes "camera.snapshot.pointcloud")
        (bytes "/snapshot/pointcloud.bin") (bytes "application/octet-stream")
        (bytes "nodus.vision.pointcloud.pcd1.v2") (bytes "GET") []
    ∷ []

color_descriptors : VisionConfig → Members → List PilotEndpointDescriptor
unfolding make_service make_stream
color_descriptors config metadata =
    make_stream config metadata (bytes "color-preview") (bytes "camera.stream.color.preview")
      (bytes "/stream/color.mjpg") (bytes "nodus.vision.mjpeg.color_part.v1")
    ∷ make_service config metadata (bytes "color-snapshot") (bytes "camera.snapshot.color")
        (bytes "/snapshot/color") (bytes "image/jpeg") (bytes "nodus.vision.jpeg.color.v1")
        (bytes "GET") []
    ∷ []

recording_descriptors : VisionConfig → Members → List PilotEndpointDescriptor
unfolding make_service
recording_descriptors config metadata =
    make_service config metadata (bytes "recording-start") (bytes "camera.recording.start")
      (bytes "/recordings/start") (bytes "application/json")
      (bytes "nodus.vision.recording.start.response.v1") (bytes "POST")
      (bytes "nodus.vision.recording.start.request.v1")
    ∷ make_service config metadata (bytes "recording-stop") (bytes "camera.recording.stop")
        (bytes "/recordings/stop") (bytes "application/json")
        (bytes "nodus.vision.recording.stop.response.v1") (bytes "POST")
        (bytes "nodus.vision.recording.stop.request.v1")
    ∷ make_service config metadata (bytes "recording-current") (bytes "camera.recording.current")
        (bytes "/recordings/current") (bytes "application/json")
        (bytes "nodus.vision.recording.current.response.v1") (bytes "GET") []
    ∷ []

-- `std::sort` with `operator<` on a key.
unfoldable pub insert_by {ℓ} : {A : Type ℓ} → (A → Text) → A → List A → List A
unfolding text_less
insert_by key x [] = x ∷ []
insert_by key x (y ∷ ys) =
    let rest = insert_by key x ys in if text_less (key y) (key x) then y ∷ rest else x ∷ y ∷ ys

unfoldable pub sort_by {ℓ} : {A : Type ℓ} → (A → Text) → List A → List A
unfolding insert_by
sort_by key [] = []
sort_by key (x ∷ xs) = insert_by key x (sort_by key xs)

-- The descriptors before they are sorted, for the two switches of the configuration.
unfoldable pub collect_descriptors :
    VisionConfig → Members → Bool → Bool → List PilotEndpointDescriptor
unfolding depth_descriptors color_descriptors recording_descriptors
collect_descriptors config metadata color recording =
    depth_descriptors config metadata
    ++ (if color then color_descriptors config metadata else [])
    ++ (if recording then recording_descriptors config metadata else [])

catalog_of : List PilotEndpointDescriptor → VisionEndpointCatalog
unfolding sort_by
catalog_of descriptors = record {
  descriptors = sort_by (λ d. d.descriptor_id) descriptors;
  capabilities =
      sort_by (λ c. c) (map (λ d. d.capability) (sort_by (λ d. d.descriptor_id) descriptors));
}

-- Each descriptor has the same metadata.
unfoldable pub build_catalog : VisionConfig → DoubleArithmetic → Result VisionEndpointCatalog
unfolding build_vision_static_metadata is_color_enabled collect_descriptors catalog_of
build_catalog config arithmetic = do
  metadata ← build_vision_static_metadata config arithmetic
  ok (
      catalog_of
        (collect_descriptors config metadata (is_color_enabled config) config.recording.enabled))
