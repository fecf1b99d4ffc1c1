-- ===== src/Scenarios/OwnFile.antt =====
-- An administrator of one department, on their own file.
use risk_management.Common.{ℕ, ◌≡◌, ◌≢◌, refl, Bool, true, none, some, List, [], ◌∷◌, String}
use risk_management.Requirements.Instance.{RequirementInstance, waived}
use risk_management.Requirements.Records.{cleared}
use risk_management.Requirements.Progress.{reverse_waiver, start_requirement}
use risk_management.Access.Self.{needs_whole_church, refuse_self_recording}
use risk_management.Documents.{Document}
use risk_management.Documents.Crypto.{Aead}
use risk_management.Tenant.{Tenant, ok}
use risk_management.Placement.OwnFile.{recording_crc, called, own_file_refused, own_file_unasked}
use risk_management.Scenarios.{today, request, anna, anna_file, row}

abbrev own_file : Tenant
own_file = record anna_file { volunteer = record anna { user_id = some 2 } }

abbrev no_cipher : Aead
no_cipher = record { encrypt = λ key nonce text a. text; decrypt = λ key nonce text a. none }

abbrev no_digest : List ℕ → String
no_digest bytes = ""

abbrev all_valid : Document → Bool
all_valid d = true

own_file_refused_example :
    called no_cipher no_digest all_valid request (recording_crc cleared today true true) own_file
    ≢ ok anna_file
unfolding refuse_self_recording
own_file_refused_example =
    own_file_refused no_cipher no_digest all_valid request own_file needs_whole_church refl
      (recording_crc cleared today true true) anna_file

abbrev waived_instance : RequirementInstance
waived_instance = row 101 10 waived none

abbrev waived_file : Tenant
waived_file = record own_file { instances = waived_instance ∷ [] }

own_file_unasked_example :
    ((u : Tenant) × (reverse_waiver request 101 "A mistake of mine" none waived_file ≡ ok u))
    × ((u : Tenant) × (start_requirement request 101 waived_file ≡ ok u))
unfolding refuse_self_recording
own_file_unasked_example =
    own_file_unasked request waived_file needs_whole_church 101 waived_instance "A mistake of mine"
      refl refl refl refl
