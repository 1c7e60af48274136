-- ===== src/Examples/Profile.antt =====
-- The security profile at an unknown repository and a disabled capability.
use ai_native_sweng.Prelude.{refl}
use ai_native_sweng.Security.Matrix.{local_consequential, classify_repo, registered}
use ai_native_sweng.Security.Matrix.Trust.{AreOrdered, classify_repo-AreOrdered}

classify_repo-AreOrdered_example :
    AreOrdered local_consequential (classify_repo "ai-native-sweng-bookit") (classify_repo "fork")
unfolding registered
classify_repo-AreOrdered_example =
    classify_repo-AreOrdered local_consequential "fork" "ai-native-sweng-bookit" refl
