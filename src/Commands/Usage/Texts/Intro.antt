-- ===== src/Commands/Usage/Texts/Intro.antt =====
-- calicoctl/commands/constants/help.go: the first lines of the texts of the commands that use the
-- datastore.
use operations_calico_contai.Base.{String, List, [], ◌∷◌}

-- DatastoreIntro
unfoldable pub datastore_intro : List String
datastore_intro =
    "Set the Calico datastore access information in the environment variables or"
    ∷ "or supply details in a config file." ∷ "" ∷ []
