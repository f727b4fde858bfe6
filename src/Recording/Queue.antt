-- ===== src/Recording/Queue.antt =====
-- The bounded frame queue of src/recording/recording_manager.cpp: m_queue, m_queue_head,
-- m_queue_tail and m_queue_count. An empty slot is `none`, a null pointer.
pub mod Fifo
use nodus_vision.Prelude.{
  ℕ, zero, suc, ◌+◌, ◌-◌, ◌%◌, Bool, Option, none, some, List, [], ◌∷◌, length, get_elem?, set,
  replicate, ◌==◌,
}
use nodus_vision.Camera.Contracts.{CapturedFrame}

pub record FrameQueue : Type 0 where
  pub slots : List (Option CapturedFrame)
  pub head : ℕ
  pub tail : ℕ
  pub count : ℕ

abbrev pub capacity : FrameQueue → ℕ
capacity q = length q.slots

-- The constructor's `m_queue(queue_capacity_frames)`, and the resets of `startOrReplay` and of
-- `restorePersistedArtifactLocked`.
unfoldable pub cleared : ℕ → FrameQueue
cleared n = record { slots = replicate n none; head = 0; tail = 0; count = 0 }

unfoldable pub is_full : FrameQueue → Bool
is_full q = q.count == capacity q

-- `trySubmitFrame`, after its tests.
unfoldable pub push : FrameQueue → CapturedFrame → FrameQueue
push q frame = record q {
  slots = set q.slots q.tail (some frame);
  tail = (q.tail + 1) % capacity q;
  count = q.count + 1;
}

slot : List (Option CapturedFrame) → ℕ → Option CapturedFrame
slot slots i = elim (get_elem? slots i) [ none ↦ none | some s ↦ s ]

-- The removal in `runWorker`: the pointer is moved out of its slot.
unfoldable pub pop : FrameQueue → Option CapturedFrame × FrameQueue
unfolding slot
pop q = (
  slot q.slots q.head,
  record q {
    slots = set q.slots q.head none;
    head = (q.head + 1) % capacity q;
    count = q.count - 1;
  },
)
