-- ===== src/Lib.antt =====
-- nah, a framework for Kubernetes controllers, and what its core guarantees.
--
-- A change of an object reaches a handler set as an event with a key. Router.OnChange strips the
-- key's prefixes, asks the rate limit of the key (Router.Limits), reads the object, and lets
-- Router.Handle run the handlers of its kind (Router.Registry). A handler is wrapped by the filters
-- of its route (Router.Filters), of which one adds and removes a finalizer (Router.Finalizer). What
-- the handlers left is saved (Router.Save) and passed to the triggers (Router.Triggers), which
-- enqueue the handlers that registered a matcher (Router.Matcher) for it. A handler may call Apply
-- with the objects that it wants: they are collected (Apply.ObjectSet), marked with their owner and
-- a hash (Apply.Labels), given their owner reference and namespace (Apply.Owning, Apply.Namespace),
-- and compared with those that exist (Apply.Compare), of which some may be taken over and some
-- stay although they are not desired (Apply.Takeover). Apply.Process carries that out for one kind:
-- objects are created with an annotation of what was applied (Apply.Prepare), updated by a patch
-- against that annotation (Apply.Update, with Apply.Patch and Apply.Style), replaced and deleted;
-- Apply.Run does so for all kinds. An object whose owner is gone can be purged by the owner that
-- its annotations name (Apply.Orphans).
--
-- The client that a handler gets registers a matcher for what it reads and writes, unless the
-- object is wrapped (Router.RequestClient, Untriggered). Below it are a client with a cache that
-- remembers its own writes (Runtime.Cached) and the queues that bring keys to handlers
-- (Runtime.Controller), which several may share (Runtime.SharedHandler, Runtime.SharedController).
-- Watcher, Webhook, Mapper, Typed, Leader and Conditions stand alone.
--
-- Which file models which code, with the names in the code:
--   Error, Error/Merr              pkg/merr/error.go: Errors, NewErrors; the reasons of API errors
--   Kube                           kinds, metadata and the client, as the program uses them
--   Apply/ObjectSet                pkg/apply/objectset/objectset.go: ObjectSet, its keys and order
--   Apply/Labels                   pkg/apply/desiredset_apply.go: GetLabelsAndAnnotations, setLabels,
--                                  setAnnotations, objectSetHash
--   Apply/Compare                  pkg/apply/desiredset_process.go: should, compareSets
--   Apply/Namespace, Apply/Owning  pkg/apply/desiredset_process.go: adjustNamespace,
--                                  clearNamespace, assignOwnerReference
--   Apply/Takeover                 pkg/apply/desiredset_process.go: annotationsMatch,
--                                  isAssigningSubContext, isAllowOwnerTransition, the guard in
--                                  createF, filterCrossVersion
--   Apply/Orphans                  pkg/apply/desiredset_owner.go: getGVK, FindOwner, PurgeOrphan
--   Apply/Patch                    pkg/apply/desiredset_compare.go: pruneValues, emptyMaps,
--                                  sanitizePatch, removeMetadataFields
--   Apply/Style                    pkg/apply/patch_style.go: getMergeStyle; createPatch
--   Apply/Prepare, Apply/Update    pkg/apply/desiredset_compare.go: prepareObjectForCreate and the
--                                  originals; applyPatch, compareObjects
--   Apply/Process                  pkg/apply/desiredset_process.go: process, list, listBySelector;
--                                  desiredset_crud.go
--   Apply/Run                      pkg/apply/desiredset.go, apply.go, desiredset_apply.go: the builder,
--                                  Apply, Ensure, apply, GetSelector, injectLabelsAndAnnotations
--   Apply/Reconcilers              pkg/apply/reconcilers.go
--   Name                           pkg/name/name.go: SafeConcatName and its two variants
--   Router/Handler                 pkg/router/types.go, handler.go: Request, Response, Handler
--   Router/Matcher                 pkg/router/matcher.go: objectMatcher
--   Router/Triggers, Router/Worker pkg/router/trigger.go: register, process; kick
--   Router/Filters                 pkg/router/router.go: the filters, RouteBuilder.Handler
--   Router/Finalizer               pkg/router/finalizer.go: FinalizerHandler.Handle
--   Router/Registry                pkg/router/handlers.go: AddHandler, Handles, Handle
--   Router/Save                    pkg/router/save.go: save, StatusChanged
--   Router/Limits                  pkg/router/handler.go: checkDelay, forgetBackoff
--   Router/Handle                  pkg/router/handler.go: handle, handleError; Trigger and
--                                  UnregisterAndTrigger of trigger.go
--   Router/OnChange                pkg/router/handler.go: onChange
--   Router/RequestClient           pkg/router/client.go, getorcreate.go; Register of trigger.go and
--                                  triggerRegistry of handler.go
--   Router/Start                   pkg/router/router.go: Start, startHandlers, done; healthz.go; Run of
--                                  pkg/leader/leader.go
--   Router/Builder                 pkg/router/router.go: the methods of RouteBuilder
--   Untriggered                    pkg/untriggered/untriggered.go: Holder and its wrappers
--   Runtime/Keys                   pkg/runtime/controller.go: keyFunc, KeyParse, isSpecialKey
--   Runtime/Controller             pkg/runtime/controller.go: the enqueues, run, processSingleItem,
--                                  syncHandler
--   Runtime/SharedHandler          pkg/runtime/sharedhandler.go: Register, OnChange
--   Runtime/Factory                pkg/runtime/sharedcontrollerfactory.go: ForKind, loadAndStart
--   Runtime/Cached                 pkg/runtime/cached.go: cacheClient; copy.go: CopyInto
--   Runtime/SharedController       pkg/runtime/sharedcontroller.go, errorcontroller.go, transaction.go;
--                                  Start of controller.go
--   Json                           pkg/data/generic.go: translateObject, and JSON values
--   Typed                          pkg/typed: maps by key, MapSlice; Merge of pkg/data/generic.go
--   Leader                         pkg/leader/locks/file.go: lock
--   Conditions                     pkg/conditions/setter.go: ErrorMiddleware
--   Watcher                        pkg/watcher/watcher.go: doWatch, retryWatch, bySelector
--   Webhook                        pkg/webhook: Router, RouteMatch, Response.CreatePatch
--   Mapper                         pkg/mapper/mapper.go: RESTMapperGlobalCache
-- The children of a module prove its properties; Prelude has the lists, maps, strings and sorting
-- that all share; the modules whose names end in Examples hold tests and instances of the theorems.
--
-- Strings are lists of bytes. A Go map is an association list in the order in which `range` visits
-- it, so that a theorem about every list is one about every order of iteration. Numbers that the
-- program only compares (generations, delays) are natural numbers. Every function is structurally
-- recursive, but for retryWatch, which runs on fuel: the number of watches. A context that allows n
-- more waits needs n + 1 of it. The state behind a client is a type W of which nothing is assumed,
-- and every call returns the state that it leaves; a handler changes its object in place, which is
-- why it returns the object. The goroutines of checkDelay are a list of sleeping keys in the state
-- of the limits, and their waking is a step of its own.
--
-- Not modelled: Kubernetes and its client libraries, which are parameters (the client, the scheme,
-- the rate limiter, digests, compression, JSON texts, three-way merges, selectors on fields); the
-- locks, since runs are one after another here, and purges and woken keys are steps of their own;
-- tracing and logging; later writes through a pointer that a trigger holds. An object has no typed
-- spec: the fields that the reconcilers of pkg/apply read are functions of it. The tester of
-- a router, the run of a leader election and pkg/yaml have no model.
pub mod Prelude
pub mod Error
pub mod Kube
mod Samples
pub mod Apply
pub mod Router
pub mod Untriggered
pub mod Json
pub mod Runtime
pub mod Name
pub mod Watcher
pub mod Webhook
pub mod Mapper
pub mod Examples
pub mod Typed
pub mod Leader
pub mod Conditions
