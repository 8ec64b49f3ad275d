-- ===== src/Lib.antt =====
-- Verification library of the content management system in apps/cms.
--
-- The system keeps content entries in PostgreSQL, each as a set of versions with a status; it
-- validates and publishes them, announces every change to webhooks by rows that a worker delivers,
-- limits the rate of requests, caches answers under tags, and searches entries by queries that a
-- palette builds, the URL carries and the server compiles. Its tools plan the changes that a bundle
-- makes to the schema and to the entries. The parts and the files that model them, by module:
--
-- - Entry: the versions of one entry. Entry/Version is apps/cms/utils/contentStatus.ts and
--   apps/cms/server/utils/resolveVersion.ts; Entry/Transition and Entry/Handlers are
--   apps/cms/server/utils/entryTransitions.ts with the handlers of apps/cms/server/api/entries/[id]
--   (planTransition, applyTransitionMutations, unpublish, archive, unarchive, republish,
--   draft.delete); Entry/Writes is publishEntry.ts and upsertEntryDraft.ts of apps/cms/server/utils.
--   The state is that of a database, which is a parameter: Entry/Database is the interface that the
--   code uses through a Prisma transaction client, with the laws of the primary key, of the partial
--   unique index over DRAFT, PUBLISHED and CHANGED, and of atomic transactions. The order of rows is
--   left open. Entry/Rows holds the words of those laws, Entry/ListDatabase an instance of them.
--   Entry/RowLaws, RowSearch, Effects, Settled, WriteLaws and Stored carry the proofs in
--   Entry/Preserve, PublishLaws, Contents, ArchivedWrites and Refusals.
-- - Webhook: Webhook/Enqueue is apps/cms/server/utils/webhooks.ts, called inside the transactions of
--   Entry; Webhook/Backoff and Webhook/Worker are webhookBackoff.ts and webhookWorker.ts, with the
--   network, the signature, name resolution and the internal handlers as an environment. Laws are in
--   WorkerLaws (one dispatch), WorkerRuns (one delivery over time) and Tick (the table).
-- - RateLimit: apps/cms/server/utils/rateLimit.ts. RateLimit/Store is the store, a call and a run of
--   the cleanup timer; Sweep, Window and Retry hold the proofs.
-- - FieldType: apps/cms/utils/fieldTypes.ts.
-- - Query: apps/cms/utils/queryBuilder. Operators, Types, SystemFields, Machine, Compile and
--   Navigation are the files of those names (Types with query.ts); `reduce` is the reducer of
--   machine.ts, one clause of `dispatch` for each action. OperatorLaws, MachineLaws, Editing, Scope,
--   CompileLaws, Pages and NavigationLaws hold the proofs.
-- - Search: apps/cms/server/utils/compileSearchFilter.ts. Search/Literal is the quoting, and LiteralLaws
--   its proofs; Search/Compile and its child Clauses compile a filter on the operators and system
--   fields of Query. Grammar says apart from the code which filters are acceptable, Acceptance is about
--   what is accepted, Offered about what the palette offers, Switch about the switch on the type.
-- - Cache: apps/cms/server/utils/taggedCache.ts. Cache/Stores is the interface of the value store and
--   of Redis, which are parameters, with the documented effect of each command on values, members
--   and deadlines; Cache/Tagged is the code, Cache/Contract what it promises, and Keys, Index, Writes
--   and Refinement the way to it. Cache/MapStores is an instance of the interface.
-- - TopoSort: packages/boject-cli/src/perf/topoSort.ts, one round of the loop and the loop in
--   TopoSort/Sort, its rule in Loop, and the proofs in Safety and Refusal.
-- - Schema: apps/cms/scripts/content-bundle/planSchema.ts, with the types of schemaPlan.types.ts and
--   types.ts in Schema/Types. Options and Fields compare one field, Plan walks the types; Frames and
--   Removal, Kept, SameFields and Unchanged hold the proofs.
-- - Import: apps/cms/scripts/content-bundle/planEntryImport.ts in Import/Plan, its proofs in Outcome.
-- - Content: what an entry holds. Content/Json is JSON as request bodies carry it, with the outcome of a
--   handler, Text the operations on text. Richtext and Validate are
--   apps/cms/server/utils/validateEntryData.ts, Options is fieldOptions.ts and fieldDefaults.ts of
--   apps/cms/utils with applyFieldDefaults.ts, Enrich is enrichRichtextEmbeds.ts of
--   apps/cms/server/utils. Nodes and RichtextLaws are about documents, Conforms tells the values of
--   each type apart, Checked, Images, Accepted, Maps, Outcomes and Validated are about the
--   validation, Spread, EnrichLaws, Links and Unlinked about the stamps.
-- - Create: createEntry.ts of apps/cms/server/utils in Create/Entry, with assertUniqueFieldValues.ts,
--   validateAndEnrichEntryData.ts, prismaErrors.ts and mergeEntryPatch.ts, on the parts of Content; its
--   queries and its transaction are an interface. Create/Slug is apps/cms/utils/slugify.ts. EntryLaws,
--   Overlays and SlugLaws hold the proofs.
-- - SearchIndex: searchDocument.ts, buildEntrySearchDocument.ts and syncToSearchIndex.ts of
--   apps/cms/server/utils. Document builds the documents of an entry from its versions (Entry) and
--   their contents (Content); Reconcile writes them to the engine, which is an interface with the
--   documented effect of adding and deleting documents. DocIds, Converge, Working and Batches hold
--   the proofs.
-- - Common: the shared names, Boolean tests and list functions on native numbers.
--
-- Choices. A `Date` is a number of milliseconds, and the clock is an argument; one time is used
-- for the several `new Date()` of a request. A write that throws is `none`, and its transaction
-- leaves the state as it was. The versions that a handler loads are those at the start of its
-- transaction: no other request writes between the load and the transaction. Characters stand
-- for UTF-16 units. An unknown JavaScript value of a filter is read by its text and by whether
-- it is a list of texts. Loops recurse on their lists; two run on fuel, which is enough: that
-- over the batches of SearchIndex on one for each document, since a batch takes one at least,
-- and that of TopoSort on one for each identifier and each edge and one more, since a round
-- places a node or defers an edge. The data of a version is any type; that it is never null is
-- part of reading it as a value. Errors, warnings and blockers of Search, Schema and Import are
-- told by their kind; their messages are left out. Numbers of Content are any type with a test
-- for finite ones; URL, Date.parse, the object schemas of the parser library and the look-up of
-- an entry are parameters of Content/Validate, and the look-ups of one validation see one state
-- of the database. Decimals of Content/Enrich run on fuel, one more than the number, which has
-- no more digits than that. Ticks of the webhook worker do not overlap, and nothing else writes a
-- delivery during its dispatch; the code does not ensure either.
--
-- Not modelled: the guards of scope, rate and uuid before the handlers; in Entry, the
-- validation of entry data and the extraction of title and slug, which are the parameter
-- ContentOps of Entry/Writes and are modelled by themselves in Content; the query for due
-- deliveries (a parameter of a tick); the intervals of the timers; deleteEntry.ts; the guards of hosts,
-- passwords and keys; the settings and queries of the search engine, the hooks around the
-- cache, the GraphQL schema, asset storage, admin interface, the other command line tools, and
-- what applies a schema plan.
mod Common
pub mod Cache
pub mod Content
pub mod Create
pub mod Entry
pub mod FieldType
pub mod Import
pub mod Query
pub mod RateLimit
pub mod Schema
pub mod Search
pub mod SearchIndex
pub mod TopoSort
pub mod Webhook
