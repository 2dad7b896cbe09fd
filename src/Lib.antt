-- ===== src/Lib.antt =====
-- The ManifestGenerator controller: it reads source artifacts and ConfigMaps, evaluates a pipeline
-- over them, renders templates against the result, and publishes the files as an ExternalArtifact.
--
-- The parts, in the order in which a reconciliation uses them:
-- - Reconcile: Reconcile and reconcile of internal/controller/manifestgenerator_controller.go.
--   Toolkit has the libraries that keep an object, State the object, the requests and their answers,
--   Status manifestgenerator_status.go, Finalize manifestgenerator_finalize.go, Publish fetchSources,
--   reconcileExternalArtifact and the loop over the artifacts, Run the rest, which calls the other
--   parts in their order.
-- - Controller/Validation: validateSpec (internal/controller/manifestgenerator_validation.go).
-- - Controller/Sources: observeSources, setArtifactRevisions, hashObservedSources
--   (manifestgenerator_controller.go), and the index keys (manifestgenerator_manager.go);
--   Controller/Watches: what a change of a source or a ConfigMap requests.
-- - Values: internal/values/values.go, the `.values` tree of spec.values and spec.valuesFrom.
-- - Pipeline: internal/pipeline. Core has the scope, the errors and the libraries as parameters
--   (pipeline.go, iter.go), Expr the templates (template.go), SourceRef and Load load.go, Filter,
--   MapVerb, Group and MergeVerb a verb each, Compile the driver (pipeline.go).
-- - Controller/Pipeline: runPipeline, resolveValues, handleValuesError and the template data.
-- - Builder: internal/builder. Reference has parseSourceRef, ValidateDestTemplate and
--   renderDestPath, Partials partials.go, Iterations buildIterations, Apply applyArtifact,
--   DirHash dirhash.go, Mkdir mkdirAll, and Build the whole way to the storage.
-- - Render: internal/render and internal/template, the engine that Builder takes as a parameter.
-- - Controller/Inventory: findOrphanedReferences and the choice of references in notify.
-- Api has the records of api/v1alpha1/manifestgenerator_types.go. Tree has the trees that decoders
-- return, with deepMerge and deepClone in Tree/Merge; internal/pipeline/merge.go and
-- internal/values/values.go have the same text of these two. Text, Dict, FilePath and Base are the
-- Go strings, maps, paths and errors. Modules named Laws, those below Compile, Validation, DirHash
-- and Mkdir, and in Reconcile all but Toolkit, State, Status, Finalize, Publish and Run hold proofs:
-- Ends, Stages, Phases and Prepare follow a run up to its end, Ran lists the ways in which it ends,
-- and the others state what follows. Examples has concrete inputs.
--
-- How the code is read:
-- - A Go string is its sequence of bytes. A map is an association list; where Go's order of
--   iteration is undefined the model walks the list, and the results are stated by key.
-- - An error is a constructor; a wrapped error keeps what it wraps, and an error of a library is its
--   message. `fmt.Errorf` texts are not modelled beyond their arguments.
-- - Every ctx.Err() poll is a function of its position, so that every moment of cancellation is one
--   of the choices. Library calls and reads of files are functions: they answer alike each time.
-- - A template is what executing it gives. text/template with its functions, the YAML and JSON
--   decoders, doublestar, the file system, the API server and sha256 are parameters.
-- - A float64 is its bit pattern, an int a natural number. The tree values are never written to, so
--   a deep clone is an equal tree, and sharing is not modelled. The interval is its positive part.
-- - The read limit of 10 MiB is the one of the code. Recursion is on the structure of the data, but
--   for mkdirAll and the decimal notation in Text/Decimal, which counts rounds: a number is at least
--   the count of its digits less one.
--
-- - A run of the reconciler is a function from the object to the requests that it sends, the latest
--   first, the object at its end, the object as the server has it, and the outcome. The environment
--   answers each request by all that came before, so every order of failures is one of the choices.
--   A request that fails is taken to leave the stored object. The answers to deletions and garbage
--   collections have no effect in the code but on its log, and none in the model.
-- - Conditions keep kind, status and reason; messages, times, logs and the texts of events are left
--   out. The steps of one run see one cluster, one file system and one storage.
-- - mkdirAll is on fuel, a unit for each call: one more than the path has segments is enough. In
--   applyArtifact it shows in the error of a write only, which is an answer of the file system.
--
-- Not modelled: the bytes of the storage; MkdirTempAbs and the registration of watches and indexes,
-- which call a library only; the generated code in api/v1alpha1 and the flags and wiring of
-- cmd/main.go.
pub mod Base
pub mod Text
pub mod Dict
pub mod Tree
pub mod Api
pub mod Pipeline
pub mod FilePath
pub mod Values
pub mod Builder
pub mod Controller
pub mod Reconcile
pub mod Render
pub mod Examples
