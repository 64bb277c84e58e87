-- ===== src/Page/Laws.antt =====
-- The frame of a call that is given one.
use kdbs.Common.{◌≡◌, some, arith, Result}
use kdbs.Page.{Frame, with_frame}

-- A call on a frame that is there is the call's body.
pub with_frame_inv {ℓ} :
    {A : Type ℓ} (body : Frame → Frame × Result A) (f g : Frame) (r : Result A)
    → with_frame (some f) body ≡ (some g, r)
    → body f ≡ (g, r)
with_frame_inv body f g r h = ground arith
