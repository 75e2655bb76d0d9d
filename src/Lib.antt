-- ===== src/Lib.antt =====
-- The interactive core of the documentation site, the scripts docs/javascripts/prismplane.js and
-- docs/javascripts/crystalline.js, which run in the reader's browser, and the page of the semantic
-- memory demo, examples/semantic_memory_relational_spike/demo/app.js.
--
-- The parts of the program and how they interact. prismplane.js sets up every page: the RFC reader
-- filters, orders and shows a catalog of records and keeps its state in the page's address and in the
-- browser's history; around it stand the site's navigation, the drawer, the tabs of the authoring
-- surfaces, the parts of the book, the rail of an architecture page and the collapsible side
-- navigation. crystalline.js runs the tour of the layers on the architecture page. The two share
-- the address and the history of the page, and nothing else. app.js is a page of its own, which draws
-- what a focus of the memory selects.
--
-- The files.
--   Base          lists, stable sorting, texts and signed numbers as the scripts use them
--   Params        the search parameters of an address, as the browser keeps them: a list of pairs in
--                 the order of the address
--   Catalog       rfcReaderContract: adjacentRecordId, resolvedRecordId, setTag, sortRecords, matches;
--                 Moves, Tags and Order hold what is proved of them
--   Address       rfcReaderContract: readParams and writeParams; RoundTrip and Canonical
--   Reader        initializeRfcReader. Panels: setTagPanelOpen and the handlers of the two panels.
--                 Session: the variables of the closure as the record Reader, applyFilters,
--                 selectRecord, readUrl, writeUrl. Events: one function for each handler, with `step`
--                 for an event and `run` for a sequence. Choices: the options of the controls and the
--                 numbers beside them. Controls: applyControls. Detail: renderDetail. Json and Parsing: the
--                 checks of the parsed catalog. Excerpt: excerpt and the search texts. Shown, Runs,
--                 Filters, Synced, Live, Back, Again, Rendered, Detailed, Offered and Counts hold what is
--                 proved of them, as do the children of Parsing and Excerpt
--   Tour          crystalline.js. Layers: the table and architectureTourContract. Machine: the variables
--                 of initializeCrystalArchitecture as the record Tour, and one function for each event.
--                 Timer, Choice and Progress hold what is proved of its runs
--   Site          Navigation: siteNavigationContract and initializeSiteNavigation. Drawer:
--                 initializeSiteDrawerToggle. Tabs: initializeSurfaceTabs, with its children Active and
--                 Scroll. Book: initializeBookParts. Rail: initializeArchitectureNav, with its
--                 child Marks. Sidebar: initializePrimaryNavCollapse. Process: initializeProcessRail.
--                 Convergence: the contract of the map and initializeConvergenceMap, with its child Settled.
--                 Lifecycle: initializePage, the disposers and the subscription to page swaps, with its
--                 child Single
--   Demo          app.js of the semantic memory demo. Facts and Focus: its tables. Render: factFor,
--                 candidateStatus and the functions that draw the page. Session: its state and its
--                 buttons. Treatment, Marks, Choices and Pictures hold what is proved of them
--   Examples      (of Catalog, Address, Reader, Tour, Site and Demo) the parts at concrete inputs
--
-- How the state corresponds. A closure's `let` variables and the attributes of the page that its
-- handlers set are fields of one record; a handler is a function on that record; a sequence of events
-- is a list, in whatever order the browser sends them. The history is a list of past entries, the
-- current one and a list of future ones. A timer is the pending callback that remembers its
-- generation; callbacks of any generation may run. A handler that throws is an outcome that keeps what
-- was done before. An event that the browser queues (`toggle` of a details element) is a flag that a
-- later event takes.
--
-- What stands outside. `localeCompare` of the browser is the parameter Collator, with its numeric and
-- its plain comparison; of the first, the order of two texts is taken to swap with them
-- (IsConsistent). `searchable`, which rests on Unicode tables, is a field of Setup. `JSON.parse` gives a
-- value of Json, or none if it throws. The arithmetic of the language is the parameter Numbers where
-- the convergence map is drawn. The catalog is a field of Setup: a list of records that passed the
-- checks and whose lists renderDetail can read. Of two records of one id, the look-up by id finds the
-- last, as the script's map does; the rows of the list are found by id, and one id is taken to have one
-- row. No id is blank where a statement says so. Strings are texts of scalar values that are ordered by
-- their UTF-16 units. Lengths of the page's layout are whole numbers in a common unit. Recursion is on
-- lists and numbers; only the digits of a number are found with fuel, one more than the number, which
-- is enough since each digit divides it by ten.
--
-- What is not modelled: the reader of a catalog that passes the checks but has issue_links or related_ids
-- that are no list, on which renderDetail throws (Parsing tells such a catalog apart), the construction of
-- the page's elements, whose texts and attributes are fields of records, focus and scroll offsets but
-- those of the tabs and the rail, half a surrogate pair that a cut of an excerpt leaves, and of the convergence map the gradients of
-- its markup and the measured length of a path.
-- The compiler's Incan sources, the Rust companion and the Python tools are in other languages.
pub mod Base
pub mod Params
pub mod Catalog
pub mod Address
pub mod Reader
pub mod Tour
pub mod Site
pub mod Demo
