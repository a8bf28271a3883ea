-- ===== src/Admission/Purpose.antt =====
-- The purpose tables of both ends agree (src/runtime/mesh.ts, `isPurposeMessageAllowed`).
use jupyter_pair_ext.Base.{String, ◌≡◌, refl, true, false, nat_eq, string_eq}
use jupyter_pair_ext.Admission.{ConnectionPurpose, runtime, bootstrap, is_purpose_message_allowed}

-- What one end may send is exactly what the other end accepts, whatever the purposes of the two
-- ends and the type of the frame.
is_purpose_message_allowed_both :
    (mine theirs : ConnectionPurpose) (frame_type : String)
    → is_purpose_message_allowed mine theirs frame_type false
      ≡ is_purpose_message_allowed theirs mine frame_type true
unfolding is_purpose_message_allowed
is_purpose_message_allowed_both runtime runtime frame_type = refl
is_purpose_message_allowed_both runtime bootstrap frame_type = refl
is_purpose_message_allowed_both bootstrap runtime frame_type = refl
is_purpose_message_allowed_both bootstrap bootstrap frame_type = refl
