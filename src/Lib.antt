-- ===== src/Lib.antt =====
-- ScoutPulse: the front end's own logic (apps/frontend/src/app/).
--
-- The front end is an Angular application over two Go services. What it decides by itself, and not by
-- asking a service, stands in a few stores and rule modules; these are modelled here. A signal is a
-- field of a record, an operation is a function from state to state, and what the code reads from
-- elsewhere (random numbers, fresh ids, the clock, a reply) is an argument. Paths below are under
-- apps/frontend/src/app/.
--
-- The tactics board, features/tactics/board/:
--   Board/Doc and Board/Defaults: the document of model.ts and its defaults (`emptyDoc`, `newStep`).
--   Board/Position: where objects stand. A step stores only what moves; `positionAt` looks back
--     through the steps, and `positionsAt` folds them. Board/Standing has the laws of that encoding.
--   Board/Look, Board/Geometry, Board/Formation and Board/Formation/Table: `playerLook`, `nextNumber`,
--     `clampToArea`, the curves of geometry.ts that the editor needs, and `formation` with its table.
--   Board/Playback: `timeline`, `frameAt`, `still` and `stepAtTime` of playback.ts, and what a timeline
--     is in Board/Playback/Contiguous. Board/Player: the clock `BoardPlayer` of player.ts.
--   Board/Curves: more of geometry.ts (smoothing, figures, what a point hits) and the
--     path of a drawing. Board/Ribbon: the ribbons of strokes.ts as lists of vertices and triangles.
-- The tactics editor, features/tactics/editor/editor-store.ts, on top of the board:
--   Editor/Store: the state, `apply` with its gestures, `undo` and `redo`. Editor/Objects,
--     Editor/Drawings and Editor/Steps: the operations. Editor/Action: all of them as one data type.
--   Editor/Saving: `load`, `save`, `signInToSave` and `canLeave` of tactics-editor.ts; what a save may
--     lose is in Editor/Saving/Lost. Editor/Effects: what operations do to the store's flags.
--   Editor/History, Editor/Valid, Editor/Shows, Editor/Reorder and Editor/Placing: what the operations
--     keep and what the steps show afterwards.
-- The pointer and what it does to the board, features/tactics/board/engine.ts and pieces.ts:
--   Engine/Camera: the layout for mouse and touch, and what the cameras frame. Engine/Pieces: which
--     pieces are kept or built, and what a frame shows of them. Engine/Hits: what a click takes hold of.
--   Engine/Pointer: the gestures. A pointer event gives the engine's next state and the calls of its
--     handlers, in their order. Engine/Session: board-view.ts and tactics-editor.ts, which turn these
--     calls into operations of the editor's store; its children, Engine/Shown and Engine/Area are about
--     engine and store together. What three.js answers (the ray, what it hits) is an argument.
-- Articles, features/articles/:
--   Article/Doc: doc/article-doc.ts, with its words and what is visible, and the status of an article.
--   Article/Editor: editor/article-editor.ts. An `async` function is cut at its awaits: each part is a
--     function, requests on their way and callers that wait for one are lists in the state, and the
--     answers come in any order. Article/Editor/Pending, Calm, CalmSteps, Stored and Race: what saving
--     keeps true. Article/Workflow: submitting, asking for changes, and leaving.
-- Forms: shared/util/ and shared/forms/submit.ts, features/players/ and features/transfers/.
--   Forms/Money and Forms/Dates: `parseMoney`, `formatMoneyInput` and dates.ts on texts, which are lists
--     of UTF-16 code units. Forms/Submit: `messageFor` and `requestIdFor`.
--   Forms/Player: player-form.ts. Forms/Transfer: the two forms of transfer-form.ts. A save is the part
--     up to its request, and the part from the answer on. Forms/Fields: the errors that a form collects.
-- The game "Who Played For Both?", features/games/played-for-both/:
--   Game/Index, Game/Pairs, Game/Pool and Game/Draw: `buildIndex`, `pairKey`, `matches`,
--     `buildPairPool` and `drawPair` of played-for-both.engine.ts. Game/Random: what a draw gives. What the
--     index lists is in Game/Index/Rows, and what the answers to a pair are in Game/Pairs/Answers;
--     Game/Pool/Complete is about which pairs the pool has.
--   Game/Store and Game/Event: `PlayedForBothStore` with its timer. Game/Play: what play keeps true.
-- Sign-in and rights, core/auth/:
--   Auth/Session: `SessionStore` and `TokenStorage`. Auth/Facade: the flows of `AuthFacade`, with what
--     the service answers as values, and the route guards. Auth/Flows: what flows keep true.
--   Auth/Interceptor: `authInterceptor` as events that interleave; Auth/OneRefresh: how they share
--     a refresh. Auth/Permissions: `Permissions`, with the answers to its requests in any order.
-- Reading the API, core/api/:
--   Api/Page: page.ts. Api/Lookup: `collect` of lookup-store.ts. Api/Cache: the lists it keeps,
--     with calls between its pages, which share one reading in Api/Cache/Shared. Api/Names: `PlayerNames` of
--     player-names.ts, with calls and answers in any order; what it asks for is in Api/Batches.
--   Api/Error: `ApiError` of api-error.ts.
-- Base: the shared library. Lists, texts, integers and tests over the native numbers; objects and maps as
-- association lists; `Number`, the operations on JavaScript numbers that the board uses.
--
-- Numbers on the board are those of any instance of `Number`; an ordered one has `le` a total order
-- and adding what is not negative no smaller, which doubles other than NaN have. `whole` is an
-- instance. Counts and indexes are natural numbers, or integers where the code may meet a negative one.
-- A patch (`Partial<T>`) is a function on the record. Keys that objects inherit are left out, and so
-- are documents without a step, which the loader never gives.
--
-- `while (b === a)` of the game's `randomKey` need not end for a bad random source, so it runs on fuel;
-- the theorem on it says which sources are good enough for the fuel. So does the reading of pages, which
-- depends on the service: 5,001 pages are enough for any service whose pages have a limit, and 51 for
-- one that serves a list. The other loops are structural.
-- A random number is a multiple of 2^-53, and the products `rng() * n` are exact.
--
-- Not modelled: what three.js draws (the scene, meshes, textures and lights of engine.ts, pieces.ts and
-- textures.ts), templates and styles, the rich text editor behind articles, the dialogs of the article
-- editor, pages that only read and show, HTTP repositories, the pipe that prints money, and the services
-- in Go.
mod Base
pub mod Board
pub mod Editor
pub mod Game
pub mod Auth
pub mod Api
pub mod Engine
pub mod Article
pub mod Forms
